-- ===== src/Tests/Wires.antt =====
-- A session over a socket that gives, for each packet, an empty datagram and then the reply.
use jlu_drcom_win.Base.{
  ℕ, ◌<◌, ◌≡◌, ◌≢◌, refl, sym, ap, Bool, true, false, Option, none, some, List, [], ◌∷◌, length,
  arith,
}
use jlu_drcom_win.Protocol.Types.{Bytes}
use jlu_drcom_win.Protocol.Response.{response_matcher}
use jlu_drcom_win.Transport.Failure.{Failure, timeout, heartbeat_step1}
use jlu_drcom_win.Transport.Udp.{Address, Received, datagram, broken, Socket, Transport}
use jlu_drcom_win.Transport.Udp.Answers.{Answered}
use jlu_drcom_win.Runner.World.{Context, session_context, World, disconnected}
use jlu_drcom_win.Runner.Rules.{Holds}
use jlu_drcom_win.Runner.Exchange.{Same}
use jlu_drcom_win.Runner.Steps.{exchange, run, zero_session}
use jlu_drcom_win.Runner.Trace.{Traced}
use jlu_drcom_win.Runner.Wire.{Machine, udp_env}
use jlu_drcom_win.Runner.Wire.Safe.{Unread, udp_exchange-calm, exchange-Answered, run-Wired}
use jlu_drcom_win.Tests.Samples.{first16, step1}
use jlu_drcom_win.Tests.Exchanges.{settings}
use jlu_drcom_win.Tests.Sessions.{reply}

abbrev server : Address
server = record { ip = 10 ∷ 100 ∷ 61 ∷ 3 ∷ []; port = 61440 }

abbrev transport : Transport
transport = record { server = server; timeout = 2000000000 }

-- The state is the list of the datagrams to come, and whether there is a deadline. Without one, empty
-- datagrams come for ever.
abbrev Wire : Type 0
Wire = List Bytes × Bool

abbrev next : Wire → Received × Wire
next (queue, false) = (datagram [] none, (queue, false))
next ([], true) = (broken (record { failure = timeout; is_late = true }), ([], true))
next (b ∷ queue, true) = (datagram b (some server), (queue, true))

abbrev limited : Option ℕ → Bool
limited none = false
limited (some d) = true

abbrev socket : Socket Wire
socket = record {
  poll = λ s. (none, s);
  context_deadline = none;
  now = λ s. (0, s);
  set_deadline = λ d s. (none, (s.0, limited d));
  watch = λ s. s;
  unwatch = λ s. s;
  write_to = λ b a s. (none, ([] ∷ reply b ∷ [], s.1));
  read_from = λ n s. next s;
  ip_equal = λ a b. true;
}

abbrev machine : Machine Wire
machine = record {
  socket = λ ctx. socket;
  read = λ n s. some (7 ∷ 7 ∷ 7 ∷ 7 ∷ [], s);
  now = λ s. (1700000000, s);
  timer = λ interval s. (none, s);
}

abbrev world : World Wire
world = record { env = ([], false); state = disconnected; reported = []; session = zero_session }

abbrev Armed : Wire → Type 0
Armed s = s.1 ≡ true

abbrev pending : Wire → ℕ
pending s = length s.0

arms : (ctx : Context) (d : ℕ) (s u : Wire) → socket.set_deadline (some d) s ≡ (none, u) → Armed u
arms ctx d s u q = ap (λ r. r.1.1) (sym q)

falls_at :
    (ctx : Context) (s u : Wire) (b : Bytes) (from : Option Address)
    → Armed s
    → next s ≡ (datagram b from, u)
    → Armed u × (pending u < pending s)
falls_at ctx (queue, false) u b from a q = ground (arith, a)
falls_at ctx ([], true) u b from a q = ground (arith, q)
falls_at ctx (x ∷ s, true) u b from a q = ground (arith, q)

few :
    (ctx : Context) (packet : Bytes) (s : Wire)
    → Armed s
    → (socket.write_to packet server s).0 ≡ none
    → Armed (socket.write_to packet server s).1 × (pending (socket.write_to packet server s).1 < 3)
few ctx packet s a q = (a, omega arith)

stays :
    (ctx : Context) (s : Wire) (e : Failure)
    → (socket.poll s).0 ≡ some e
    → (socket.poll (socket.poll s).1).0 ≢ none
stays ctx s e q = ground (arith, q)

exchange-Answered_example :
    Holds
      (λ p v. Same world v × Answered socket transport (some (response_matcher step1 false)) p)
      (λ e v. Same world v)
      ⊥
      (exchange
        (udp_env machine transport 3 Armed pending arms falls_at few)
        first16
        settings
        session_context
        heartbeat_step1
        step1
        false
        world)
exchange-Answered_example =
    exchange-Answered machine transport 3 Armed pending arms falls_at few stays first16 settings
      session_context heartbeat_step1 step1 false world

run-Wired_example :
    Traced
      (udp_env machine transport 3 Armed pending arms falls_at few)
      first16
      settings
      (Unread machine transport 3 Armed pending arms falls_at few)
      (λ ctx packet file s q.
        absurd (
          udp_exchange-calm machine transport 3 Armed pending arms falls_at few ctx packet file s
            q))
      (λ i s q. (i, s, q))
      2
      world
      (run (udp_env machine transport 3 Armed pending arms falls_at few) first16 settings 2 world)
run-Wired_example =
    run-Wired machine transport 3 Armed pending arms falls_at few first16 settings 2 world refl
