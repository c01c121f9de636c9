-- ===== src/Transport/Udp/Panics.antt =====
-- An exchange of datagrams panics only where the test of replies does.
use jlu_drcom_win.Base.{ℕ, ◌≡◌, ◌≢◌, refl, sym, ap, ◌∙◌, Option, none, some, arith}
use jlu_drcom_win.Protocol.Types.{Bytes}
use jlu_drcom_win.Transport.Failure.{Failure, Outcome, failed, panicked}
use jlu_drcom_win.Transport.Udp.{
  SocketError, Match, Socket, Transport, context_error, unless_ended, matched, deadline_of,
  finally_opt, after_write, after_deadline, after_first_poll, exchange_datagrams,
}
use jlu_drcom_win.Transport.Udp.Answers.{
  Receives, skips_foreign, skips_unmatched, decides, breaks, receive-Receives,
}
use jlu_drcom_win.Transport.Udp.Verdicts.{
  Breaks, context_over, context_back, context_late, own_late, other, Verdict-matched,
  NotPast-outcome,
}

module _ {S : Type 0} (socket : Socket S) where
  context_error-calm : (r : Option Failure × S) → (context_error r).0 ≢ panicked
  context_error-calm (none, s) = ground arith
  context_error-calm (some e, s) = ground arith

  unless-calm :
      (otherwise : S → Outcome Bytes × S) (r : Option Failure × S)
      → ((v : S) → (otherwise v).0 ≢ panicked)
      → (unless_ended socket otherwise r).0 ≢ panicked
  unless-calm otherwise (none, s) h = h s
  unless-calm otherwise (some e, s) h = context_error-calm (socket.poll s)

  Breaks-calm :
      (e : SocketError) (s : S) (r : Outcome Bytes × S) → Breaks socket e s r → r.0 ≢ panicked
  Breaks-calm e s r (context_over f g u v p q z) k = ground (arith, z, k)
  Breaks-calm e s r (context_back f u v p q z) k = ground (arith, z, k)
  Breaks-calm e s r (context_late d u p c l z) k = ground (arith, z, k)
  Breaks-calm e s r (own_late u p l z) k = ground (arith, NotPast-outcome socket u _ r z, k)
  Breaks-calm e s r (other u p l z) k = ground (arith, NotPast-outcome socket u _ r z, k)

  module _ (t : Transport) (m : Match) where
    -- A datagram on which the test of replies panics.
    abbrev pub Panicking : Type 0
    Panicking = (b : Bytes) × (matched m b ≡ some panicked)

    Receives-Panicking :
        {s : S} {r : Outcome Bytes × S} → Receives socket t m s r → r.0 ≡ panicked → Panicking
    Receives-Panicking (skips_foreign c from u e a w) q = Receives-Panicking w q
    Receives-Panicking (skips_unmatched c from u e a v w) q = Receives-Panicking w q
    Receives-Panicking {r = r} (breaks e u w z) q = absurd (Breaks-calm e u r z q)
    Receives-Panicking (decides c from u o e a v z) q =
        (c, Verdict-matched m c o v ∙ ap some (sym (ap (λ x. x.0) z) ∙ q))

    at_write :
        (n : ℕ) (r : Option Failure × S) (v : S)
        → after_write socket n t m r ≡ some (panicked, v)
        → Panicking
    at_write n (none, s) v q =
        Receives-Panicking (receive-Receives socket t m n s (panicked, v) q) refl
    at_write n (some e, s) v q =
        absurd
          (unless-calm (λ u. (failed e, u)) (socket.poll s) (λ u. ground arith) (ground (arith, q)))

    at_finally :
        (n : ℕ) (r : Option Failure × S) (v : S) (x : Option (Outcome Bytes × S))
        → after_write socket n t m r ≡ x
        → finally_opt socket x ≡ some (panicked, v)
        → Panicking
    at_finally n r v none e q = ground (arith, q)
    at_finally n r v (some (o, u)) e q = at_write n r u (e ∙ ground (arith, q))

    at_deadline :
        (n : ℕ) (packet : Bytes) (r : Option Failure × S) (v : S)
        → after_deadline socket n t packet m r ≡ some (panicked, v)
        → Panicking
    at_deadline n packet (some e, s) v q = ground (arith, q)
    at_deadline n packet (none, s) v q =
        at_finally n (socket.write_to packet t.server (socket.watch s)) v
          (after_write socket n t m (socket.write_to packet t.server (socket.watch s))) refl q

    at_poll :
        (n : ℕ) (packet : Bytes) (r : Option Failure × S) (v : S)
        → after_first_poll socket n t packet m r ≡ some (panicked, v)
        → Panicking
    at_poll n packet (some e, s) v q = ground (arith, q)
    at_poll n packet (none, s) v q =
        at_deadline n packet
          (socket.set_deadline (some (deadline_of t socket.context_deadline (socket.now s).0))
            (socket.now s).1)
          v q

    pub exchange_datagrams-Panicking :
        (n : ℕ) (packet : Bytes) (s v : S)
        → exchange_datagrams socket n t packet m s ≡ some (panicked, v)
        → Panicking
    unfolding exchange_datagrams
    exchange_datagrams-Panicking n packet s v q = at_poll n packet (socket.poll s) v q
