-- ===== src/Runner/Wire.antt =====
-- The runner over UDP: the exchanger is Transport.Exchange of internal/transport/udp.go, with a
-- socket for each of the two contexts (it is one socket; the context is what differs).
pub mod Safe
use jlu_drcom_win.Base.{ℕ, ℤ, ◌<◌, ◌≡◌, ◌≢◌, refl, Bool, Option, none, some, arith}
use jlu_drcom_win.Protocol.Types.{Bytes, Result}
use jlu_drcom_win.Protocol.Buffer.{Reader}
use jlu_drcom_win.Transport.Failure.{Failure, Outcome}
use jlu_drcom_win.Transport.Udp.{
  Address, Received, datagram, Socket, default_receive_buffer_size, Transport, exchange_datagrams,
}
use jlu_drcom_win.Transport.Udp.Ends.{exchange_datagrams-ends}
use jlu_drcom_win.Runner.World.{Context, Env}

-- The value of an exchange that has ended.
abbrev pub ended : {A : Type 0} → (o : Option A) → o ≢ none → A
ended none h = absurd (h refl)
ended (some a) h = a

-- What the runner uses apart from its exchanger.
pub record Machine (S : Type 0) : Type 0 where
  pub socket : Context → Socket S
  pub read : Reader S
  pub now : S → ℕ × S
  pub timer : ℤ → S → Option Failure × S

-- `Armed` says that the socket has a deadline; `pending` bounds the datagrams that may still come before
-- it. Fewer than n come for one packet.
module _ {S : Type 0} (machine : Machine S) (t : Transport) (n : ℕ) (Armed : S → Type 0)
    (pending : S → ℕ)
    (arms : (ctx : Context) (d : ℕ) (s u : S)
      → (machine.socket ctx).set_deadline (some d) s ≡ (none, u)
      → Armed u)
    (falls : (ctx : Context) (s u : S) (b : Bytes) (from : Option Address)
      → Armed s
      → (machine.socket ctx).read_from default_receive_buffer_size s ≡ (datagram b from, u)
      → Armed u × (pending u < pending s))
    (few : (ctx : Context) (packet : Bytes) (s : S)
      → Armed s
      → ((machine.socket ctx).write_to packet t.server ((machine.socket ctx).watch s)).0 ≡ none
      → Armed ((machine.socket ctx).write_to packet t.server ((machine.socket ctx).watch s)).1
        × (pending ((machine.socket ctx).write_to packet t.server ((machine.socket ctx).watch s)).1
            < n)) where
  unfoldable pub udp_exchange :
      Context → Bytes → (Bytes → Option (Result Bool)) → S → Outcome Bytes × S
  udp_exchange ctx packet matcher s =
      ended (exchange_datagrams (machine.socket ctx) n t packet (some matcher) s) (
        exchange_datagrams-ends (machine.socket ctx) Armed pending (falls ctx) t (some matcher) n
          packet (arms ctx) (few ctx packet) s)

  abbrev pub udp_env : Env S
  udp_env = record {
    poll = λ ctx s. (machine.socket ctx).poll s;
    exchange = udp_exchange;
    read = machine.read;
    now = machine.now;
    timer = machine.timer;
  }
