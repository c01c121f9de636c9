-- ===== src/Transport/Udp.antt =====
-- internal/transport/udp.go: one exchange of datagrams with the server. The socket, the clock and the
-- context are parameters that act on the state of the surroundings.
pub mod Answers
pub mod Ends
pub mod Panics
pub mod Verdicts
use jlu_drcom_win.Base.{
  ℕ, zero, suc, ◌+◌, ℤ, pos, negsuc, ltb, ◌==◌, min, Option, none, some, Bool, true, false, not,
  ◌&&◌, if◌then◌else◌, [],
}
use jlu_drcom_win.Protocol.Types.{Bytes, Result, ok, err}
use jlu_drcom_win.Transport.Failure.{
  Failure, parse, timeout, deadline_exceeded, Outcome, done, failed, panicked,
}

-- net.UDPAddr
pub record Address : Type 0 where
  pub ip : Bytes
  pub port : ℕ

-- An error of the socket, and whether it is a net.Error with Timeout().
pub record SocketError : Type 0 where
  pub failure : Failure
  pub is_late : Bool

pub data Received : Type 0 where
  datagram : Bytes → Option Address → Received
  broken : SocketError → Received

abbrev pub Match : Type 0
Match = Option (Bytes → Option (Result Bool))

-- ctx.Err() and ctx.Deadline(); time.Now(); SetDeadline, where none is the zero time; WriteToUDP;
-- ReadFromUDP into a buffer of so many bytes; context.AfterFunc with the function that moves the
-- deadline, and what undoes it; net.IP.Equal.
pub record Socket (S : Type 0) : Type 0 where
  pub poll : S → Option Failure × S
  pub context_deadline : Option ℕ
  pub now : S → ℕ × S
  pub set_deadline : Option ℕ → S → Option Failure × S
  pub watch : S → S
  pub unwatch : S → S
  pub write_to : Bytes → Address → S → Option Failure × S
  pub read_from : ℕ → S → Received × S
  pub ip_equal : Bytes → Bytes → Bool

abbrev pub default_receive_buffer_size : ℕ
default_receive_buffer_size = 4096

pub record Transport : Type 0 where
  pub server : Address
  pub timeout : ℕ

-- NewTransport: why there is none, or the transport.
pub data Opened : Type 0 where
  no_bind_address no_server_address bad_timeout : Opened
  no_socket not_pinned : Failure → Opened
  opened : Transport → Opened

-- net.ListenUDP, pinInterface, and Close of the socket.
pub record Listener (S : Type 0) : Type 0 where
  pub listen : Address → S → Option Failure × S
  pub pin_interface : Bytes → S → Option Failure × S
  pub close : S → S

module _ {S : Type 0} (net : Listener S) where
  abbrev pub after_pin : Transport → Option Failure × S → Opened × S
  after_pin t (some e, s) = (not_pinned e, net.close s)
  after_pin t (none, s) = (opened t, s)

  abbrev pub after_listen : Address → Transport → Option Failure × S → Opened × S
  after_listen bind t (some e, s) = (no_socket e, s)
  after_listen bind t (none, s) = after_pin t (net.pin_interface bind.ip s)

  unfoldable pub new_transport : Option Address → Option Address → ℤ → S → Opened × S
  new_transport none server _ s = (no_bind_address, s)
  new_transport (some bind) none _ s = (no_server_address, s)
  new_transport (some bind) (some server) (negsuc n) s = (bad_timeout, s)
  new_transport (some bind) (some server) (pos n) s =
      if n == 0
      then (bad_timeout, s)
      else after_listen bind (record { server = server; timeout = n }) (net.listen bind s)

-- What becomes of a datagram: nothing (none), or the end of the exchange.
abbrev pub after_match : Bytes → Option (Result Bool) → Option (Outcome Bytes)
after_match b none = some panicked
after_match b (some (err e)) = some (failed (parse e))
after_match b (some (ok accepted)) = if accepted then some (done b) else none

abbrev pub matched : Match → Bytes → Option (Outcome Bytes)
matched none b = some (done b)
matched (some match_with) b = after_match b (match_with b)

-- if ne, ok := err.(net.Error); ok && ne.Timeout()
abbrev pub own_error : SocketError → Failure
own_error e = if e.is_late then timeout else e.failure

-- return nil, ctx.Err()
abbrev pub context_error : {S : Type 0} → Option Failure × S → Outcome Bytes × S
context_error (some e, s) = (failed e, s)
context_error (none, s) = (done [], s)

abbrev pub settle :
    {S : Type 0}
    → (S → Option (Outcome Bytes × S))
    → Option (Outcome Bytes)
    → S
    → Option (Outcome Bytes × S)
settle again none s = again s
settle again (some o) s = some (o, s)

-- The earlier one of the deadlines of the transport and of the context.
abbrev pub deadline_of : Transport → Option ℕ → ℕ → ℕ
deadline_of t none now = now + t.timeout
deadline_of t (some d) now = if ltb d (now + t.timeout) then d else now + t.timeout

module _ {S : Type 0} (socket : Socket S) where
  abbrev pub same_udp_addr : Option Address → Address → Bool
  same_udp_addr none b = false
  same_udp_addr (some a) b = (a.port == b.port) && socket.ip_equal a.ip b.ip

  -- if ctx.Err() != nil { return nil, ctx.Err() }, and what comes after it.
  abbrev pub unless_ended : (S → Outcome Bytes × S) → Option Failure × S → Outcome Bytes × S
  unless_ended otherwise (some e, s) = context_error (socket.poll s)
  unless_ended otherwise (none, s) = otherwise s

  -- The context's deadline has passed, though the context does not say so yet.
  abbrev pub past_deadline : SocketError → Option ℕ → S → Outcome Bytes × S
  past_deadline e none s = (failed (own_error e), s)
  past_deadline e (some d) s =
      if ltb (socket.now s).0 d
      then (failed (own_error e), (socket.now s).1)
      else (failed deadline_exceeded, (socket.now s).1)

  unfoldable pub read_error : SocketError → S → Outcome Bytes × S
  read_error e s = unless_ended (past_deadline e socket.context_deadline) (socket.poll s)

  unfoldable pub judge : Transport → Match → Bytes → Option Address → Option (Outcome Bytes)
  judge t m b from = if same_udp_addr from t.server then matched m b else none

  abbrev pub after_read :
      Transport
      → Match
      → (S → Option (Outcome Bytes × S))
      → Received × S
      → Option (Outcome Bytes × S)
  after_read t m again (broken e, s) = some (read_error e s)
  after_read t m again (datagram b from, s) = settle again (judge t m b from) s

  -- The loop, for so many reads: none where it has not ended.
  unfoldable pub receive : ℕ → Transport → Match → S → Option (Outcome Bytes × S)
  receive zero t m s = none
  receive (suc n) t m s =
      after_read t m (receive n t m) (socket.read_from default_receive_buffer_size s)

  -- The deferred function.
  abbrev pub finally : Outcome Bytes × S → Outcome Bytes × S
  finally (o, s) = (o, (socket.set_deadline none (socket.unwatch s)).1)

  abbrev pub finally_opt : Option (Outcome Bytes × S) → Option (Outcome Bytes × S)
  finally_opt none = none
  finally_opt (some r) = some (finally r)

  abbrev pub after_write : ℕ → Transport → Match → Option Failure × S → Option (Outcome Bytes × S)
  after_write n t m (some e, s) = some (unless_ended (λ u. (failed e, u)) (socket.poll s))
  after_write n t m (none, s) = receive n t m s

  abbrev pub after_deadline :
      ℕ → Transport → Bytes → Match → Option Failure × S → Option (Outcome Bytes × S)
  after_deadline n t packet m (some e, s) = some (failed e, s)
  after_deadline n t packet m (none, s) =
      finally_opt (after_write n t m (socket.write_to packet t.server (socket.watch s)))

  abbrev pub after_clock : ℕ → Transport → Bytes → Match → ℕ × S → Option (Outcome Bytes × S)
  after_clock n t packet m (now, s) =
      after_deadline n t packet m
        (socket.set_deadline (some (deadline_of t socket.context_deadline now)) s)

  abbrev pub after_first_poll :
      ℕ → Transport → Bytes → Match → Option Failure × S → Option (Outcome Bytes × S)
  after_first_poll n t packet m (some e, s) = some (failed e, s)
  after_first_poll n t packet m (none, s) = after_clock n t packet m (socket.now s)

  unfoldable pub exchange_datagrams : ℕ → Transport → Bytes → Match → S → Option (Outcome Bytes × S)
  exchange_datagrams n t packet m s = after_first_poll n t packet m (socket.poll s)
