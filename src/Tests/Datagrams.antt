-- ===== src/Tests/Datagrams.antt =====
-- An exchange in which a foreign datagram and an unmatched one come before the reply.
use jlu_drcom_win.Base.{
  ℕ, zero, suc, ◌<◌, ◌≡◌, ◌≢◌, ◌==◌, refl, sym, ap, Option, none, some, Bool, true, false, [], ◌∷◌,
  arith, if◌then◌else◌,
}
use jlu_drcom_win.Protocol.Types.{Bytes, Result, ok}
use jlu_drcom_win.Transport.Failure.{timeout, Outcome}
use jlu_drcom_win.Transport.Udp.{
  Address, Received, datagram, broken, Socket, Transport, receive, exchange_datagrams,
}
use jlu_drcom_win.Transport.Udp.Answers.{Receives}
use jlu_drcom_win.Transport.Udp.Ends.{receive-ends-Receives, exchange_datagrams-ends}

abbrev server : Address
server = record { ip = 10 ∷ 100 ∷ 61 ∷ 3 ∷ []; port = 61440 }

abbrev stranger : Address
stranger = record { ip = 10 ∷ 100 ∷ 61 ∷ 3 ∷ []; port = 53 }

abbrev transport : Transport
transport = record { server = server; timeout = 2000 }

-- The state counts the datagrams to come, and says whether there is a deadline. Without one, datagrams
-- come for ever.
abbrev Pending : Type 0
Pending = ℕ × Bool

abbrev next : Pending → Received × Pending
next (k, false) = (datagram [] none, (k, false))
next (zero, true) = (broken (record { failure = timeout; is_late = true }), (0, true))
next (suc k, true) = (datagram (k ∷ []) (some (if k == 2 then stranger else server)), (k, true))

abbrev limited : Option ℕ → Bool
limited none = false
limited (some d) = true

abbrev accepts_zero : Bytes → Option (Result Bool)
accepts_zero [] = some (ok false)
accepts_zero (b ∷ bs) = some (ok (b == 0))

abbrev socket : Socket Pending
socket = record {
  poll = λ s. (none, s);
  context_deadline = none;
  now = λ s. (0, s);
  set_deadline = λ d s. (none, (s.0, limited d));
  watch = λ s. s;
  unwatch = λ s. s;
  write_to = λ b a s. (none, (3, s.1));
  read_from = λ n s. next s;
  ip_equal = λ a b. true;
}

abbrev Armed : Pending → Type 0
Armed s = s.1 ≡ true

arms : (d : ℕ) (s u : Pending) → socket.set_deadline (some d) s ≡ (none, u) → Armed u
arms d s u q = ap (λ r. r.1.1) (sym q)

falls_at :
    (s u : Pending) (b : Bytes) (from : Option Address)
    → Armed s
    → next s ≡ (datagram b from, u)
    → Armed u × (u.0 < s.0)
falls_at (k, false) u b from a q = ground (arith, a)
falls_at (zero, true) u b from a q = ground (arith, q)
falls_at (suc k, true) u b from a q = ground (arith, q)

receive-ends-Receives_example :
    (r : Outcome Bytes × Pending) × (receive socket 4 transport (some accepts_zero) (3, true)
      ≡ some r)
    × Receives socket transport (some accepts_zero) (3, true) r
receive-ends-Receives_example =
    receive-ends-Receives socket Armed (λ s. s.0) falls_at transport (some accepts_zero) 4 (3, true)
      refl (omega arith)

few :
    (s : Pending)
    → Armed s
    → (socket.write_to [] server s).0 ≡ none
    → Armed (socket.write_to [] server s).1 × ((socket.write_to [] server s).1.0 < 4)
few s a q = (a, omega arith)

exchange_datagrams-ends_example :
    exchange_datagrams socket 4 transport [] (some accepts_zero) (7, false) ≢ none
exchange_datagrams-ends_example =
    exchange_datagrams-ends socket Armed (λ s. s.0) falls_at transport (some accepts_zero) 4 [] arms
      few (7, false)
