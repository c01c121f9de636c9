-- ===== src/Transport/Udp/Ends.antt =====
-- How long an exchange of datagrams goes on.
use jlu_drcom_win.Base.{ℕ, zero, suc, ◌<◌, ◌≡◌, ◌≢◌, refl, Option, none, some, arith}
use jlu_drcom_win.Protocol.Types.{Bytes}
use jlu_drcom_win.Transport.Failure.{Failure, Outcome}
use jlu_drcom_win.Transport.Udp.Answers.{Receives, receive-Receives}
use jlu_drcom_win.Transport.Udp.{
  Address, Received, datagram, broken, Match, Socket, default_receive_buffer_size, Transport, judge,
  settle, deadline_of, after_read, receive, finally_opt, after_write, after_deadline,
  after_first_poll, exchange_datagrams,
}

-- `Armed` says of a state that the socket has a deadline; then `pending` bounds the datagrams that
-- reads may still give before it.
module _ {S : Type 0} (socket : Socket S) (Armed : S → Type 0) (pending : S → ℕ)
    (falls : (s u : S) (b : Bytes) (from : Option Address)
      → Armed s
      → socket.read_from default_receive_buffer_size s ≡ (datagram b from, u)
      → Armed u × (pending u < pending s))
    (t : Transport) (m : Match) where
  at_settle :
      (n : ℕ) (v : Option (Outcome Bytes)) (u : S)
      → receive socket n t m u ≢ none
      → settle (receive socket n t m) v u ≢ none
  at_settle n none u h = h
  at_settle n (some o) u h = ground arith

  at_read :
      (n : ℕ) (s : S) (x : Received × S)
      → ((u : S) → Armed u → pending u < n → receive socket n t m u ≢ none)
      → Armed s
      → socket.read_from default_receive_buffer_size s ≡ x
      → pending s < suc n
      → after_read socket t m (receive socket n t m) x ≢ none
  at_read n s (broken e, u) ih a q l = ground arith
  at_read n s (datagram b from, u) ih a q l =
      at_settle n (judge socket t m b from) u
        (ih u (falls s u b from a q).0 (omega (arith, (falls s u b from a q).1, l)))

  receive-ends : (n : ℕ) (s : S) → Armed s → pending s < n → receive socket n t m s ≢ none
  unfolding receive
  receive-ends zero s a l = absurd (omega (arith, l))
  receive-ends (suc n) s a l =
      at_read n s (socket.read_from default_receive_buffer_size s) (receive-ends n) a refl l

  -- The loop of an exchange, on a socket that has a deadline, ends when it is given more reads than
  -- datagrams may still come, and implements the specification: what it ends with is what follows from
  -- passing over the datagrams that are not from the server's address and port, and those that the
  -- test of replies does not accept. The first other one is the result, or gives the error of the test
  -- or its panic; and an error of a read gives that of the context, a timeout, or itself.
  pub receive-ends-Receives :
      (n : ℕ) (s : S)
      → Armed s
      → pending s < n
      → (r : Outcome Bytes × S) × (receive socket n t m s ≡ some r) × Receives socket t m s r
  receive-ends-Receives n s a l = with_result (receive socket n t m s) refl (receive-ends n s a l)
    where
      with_result :
          (x : Option (Outcome Bytes × S))
          → receive socket n t m s ≡ x
          → x ≢ none
          → (r : Outcome Bytes × S) × (receive socket n t m s ≡ some r) × Receives socket t m s r
      with_result none q h = absurd (h refl)
      with_result (some r) q h = (r, q, receive-Receives socket t m n s r q)

  -- Setting a deadline arms the socket; the state after the packet has been sent, where it is.
  module _ (n : ℕ) (packet : Bytes)
      (arms : (d : ℕ) (s u : S) → socket.set_deadline (some d) s ≡ (none, u) → Armed u)
      (few : (s : S)
        → Armed s
        → (socket.write_to packet t.server (socket.watch s)).0 ≡ none
        → Armed (socket.write_to packet t.server (socket.watch s)).1
          × (pending (socket.write_to packet t.server (socket.watch s)).1 < n)) where
    at_write :
        (r : Option Failure × S)
        → (r.0 ≡ none → Armed r.1 × (pending r.1 < n))
        → finally_opt socket (after_write socket n t m r) ≢ none
    at_write (some e, s) h = ground arith
    at_write (none, s) h = at_end (receive socket n t m s) (receive-ends n s (h refl).0 (h refl).1)
      where
        at_end : (x : Option (Outcome Bytes × S)) → x ≢ none → finally_opt socket x ≢ none
        at_end none k = absurd (k refl)
        at_end (some r) k = ground arith

    at_deadline :
        (d : ℕ) (s : S) (r : Option Failure × S)
        → socket.set_deadline (some d) s ≡ r
        → after_deadline socket n t packet m r ≢ none
    at_deadline d s (some e, u) q = ground arith
    at_deadline d s (none, u) q =
        at_write (socket.write_to packet t.server (socket.watch u)) (few u (arms d s u q))

    at_poll : (r : Option Failure × S) → after_first_poll socket n t packet m r ≢ none
    at_poll (some e, s) = ground arith
    at_poll (none, s) =
        at_deadline (deadline_of t socket.context_deadline (socket.now s).0) (socket.now s).1
          (socket.set_deadline (some (deadline_of t socket.context_deadline (socket.now s).0))
            (socket.now s).1)
          refl

    -- An exchange ends, from every state, with a deadline set or not, and with every test of replies:
    -- if setting a deadline works where it gives no error, each datagram that is read before the
    -- deadline leaves fewer that may still come, and fewer than n may come after the packet is sent,
    -- then n reads are enough.
    pub exchange_datagrams-ends : (s : S) → exchange_datagrams socket n t packet m s ≢ none
    unfolding exchange_datagrams
    exchange_datagrams-ends s = at_poll (socket.poll s)
