-- ===== src/Transport/Udp/Answers.antt =====
-- What an exchange of datagrams may return.
use jlu_drcom_win.Base.{
  ℕ, zero, suc, ◌≡◌, refl, sym, subst, ◌∙◌, ap, Option, none, some, if◌then◌else◌, Bool, true,
  false, arith, ◌≢◌,
}
use jlu_drcom_win.Transport.Udp.Verdicts.{
  IsUnmatched, Verdict, matched-IsUnmatched, matched-Verdict, Verdict-matched, Breaks, context_over,
  context_back, context_late, own_late, other, read_error-Breaks, NotPast-outcome, IsOurs,
  IsForeign, same-IsOurs, IsOurs-same, same-IsForeign,
}
use jlu_drcom_win.Protocol.Types.{Bytes, Result, ok, err}
use jlu_drcom_win.Transport.Failure.{Failure, Outcome, done, failed}
use jlu_drcom_win.Transport.Udp.{
  Address, SocketError, Received, datagram, broken, Match, Socket, default_receive_buffer_size,
  Transport, same_udp_addr, context_error, unless_ended, after_match, matched, judge, settle,
  deadline_of, after_read, receive, finally_opt, after_write, after_deadline, after_first_poll,
  exchange_datagrams,
}

module _ {S : Type 0} (socket : Socket S) (t : Transport) (m : Match) where
  -- The specification: datagrams are passed over that are not from the server, or that the test of
  -- replies does not accept; the first other one decides, or the error of a read.
  pub data Receives : S → Outcome Bytes × S → Type 0 where
    skips_foreign :
        {s : S} {r : Outcome Bytes × S} (b : Bytes) (from : Option Address) (u : S)
        → socket.read_from default_receive_buffer_size s ≡ (datagram b from, u)
        → IsForeign socket t from
        → Receives u r
        → Receives s r
    skips_unmatched :
        {s : S} {r : Outcome Bytes × S} (b : Bytes) (from : Option Address) (u : S)
        → socket.read_from default_receive_buffer_size s ≡ (datagram b from, u)
        → IsOurs socket t from
        → IsUnmatched m b
        → Receives u r
        → Receives s r
    decides :
        {s : S} {r : Outcome Bytes × S} (b : Bytes) (from : Option Address) (u : S)
        (o : Outcome Bytes)
        → socket.read_from default_receive_buffer_size s ≡ (datagram b from, u)
        → IsOurs socket t from
        → Verdict m b o
        → r ≡ (o, u)
        → Receives s r
    breaks :
        {s : S} {r : Outcome Bytes × S} (e : SocketError) (u : S)
        → socket.read_from default_receive_buffer_size s ≡ (broken e, u)
        → Breaks socket e u r
        → Receives s r

  module _ (n : ℕ) (r : Outcome Bytes × S)
      (ih : (v : S) → receive socket n t m v ≡ some r → Receives v r) (s : S) where
    from_server :
        (b : Bytes) (from : Option Address) (u : S) (v : Option (Outcome Bytes))
        → socket.read_from default_receive_buffer_size s ≡ (datagram b from, u)
        → same_udp_addr socket from t.server ≡ true
        → matched m b ≡ v
        → settle (receive socket n t m) v u ≡ some r
        → Receives s r
    from_server b from u none e a v q =
        skips_unmatched b from u e (same-IsOurs socket t from a) (matched-IsUnmatched m b v)
          (ih u q)
    from_server b from u (some o) e a v q =
        decides b from u o e (same-IsOurs socket t from a) (matched-Verdict m b o v)
          (ground (arith, q))

    judged :
        (b : Bytes) (from : Option Address) (u : S) (c : Bool)
        → socket.read_from default_receive_buffer_size s ≡ (datagram b from, u)
        → same_udp_addr socket from t.server ≡ c
        → settle (receive socket n t m) (if c then matched m b else none) u ≡ some r
        → Receives s r
    judged b from u true e a q = from_server b from u (matched m b) e a refl q
    judged b from u false e a q = skips_foreign b from u e (same-IsForeign socket t from a) (ih u q)

    at_read :
        (x : Received × S)
        → socket.read_from default_receive_buffer_size s ≡ x
        → after_read socket t m (receive socket n t m) x ≡ some r
        → Receives s r
    unfolding judge
    at_read (broken e, u) w q =
        breaks e u w (subst (Breaks socket e u) (ground (arith, q)) (read_error-Breaks socket e u))
    at_read (datagram b from, u) w q = judged b from u (same_udp_addr socket from t.server) w refl q

  pub receive-Receives :
      (n : ℕ) (s : S) (r : Outcome Bytes × S) → receive socket n t m s ≡ some r → Receives s r
  unfolding receive
  receive-Receives zero s r q = ground (arith, q)
  receive-Receives (suc n) s r q =
      at_read n r (λ v e. receive-Receives n v r e) s
        (socket.read_from default_receive_buffer_size s) refl q

  matched-done : (k : Match) (b c : Bytes) → matched k b ≡ some (done c) → c ≡ b
  matched-done none b c q = ground (arith, q)
  matched-done (some f) b c q = at_result (f b) q
    where
      at_result : (v : Option (Result Bool)) → after_match b v ≡ some (done c) → c ≡ b
      at_result none q = ground (arith, q)
      at_result (some (err e)) q = ground (arith, q)
      at_result (some (ok accepted)) q = ground (arith, q)

  -- The read that an answer comes from.
  pub record Answered (b : Bytes) : Type 0 where
    pub before : S
    pub after : S
    pub from : Option Address
    pub read : socket.read_from default_receive_buffer_size before ≡ (datagram b from, after)
    pub same : same_udp_addr socket from t.server ≡ true
    pub accepted : matched m b ≡ some (done b)

  module _
      (stays : (s : S) (e : Failure)
        → (socket.poll s).0 ≡ some e
        → (socket.poll (socket.poll s).1).0 ≢ none) where
    -- An error of a read or of a write does not become a result.
    unless-fails :
        (otherwise : S → Outcome Bytes × S) (s : S) (b : Bytes)
        → ((v : S) → (otherwise v).0 ≢ done b)
        → (unless_ended socket otherwise (socket.poll s)).0 ≢ done b
    unless-fails otherwise s b h = at_poll (socket.poll s) (stays s)
      where
        at_again : (r : Option Failure × S) → r.0 ≢ none → (context_error r).0 ≢ done b
        at_again (none, v) k = absurd (k refl)
        at_again (some e, v) k = ground arith

        at_poll :
            (r : Option Failure × S)
            → ((e : Failure) → r.0 ≡ some e → (socket.poll r.1).0 ≢ none)
            → (unless_ended socket otherwise r).0 ≢ done b
        at_poll (none, v) k = h v
        at_poll (some e, v) k = at_again (socket.poll v) (k e refl)

    Breaks-fails :
        (e : SocketError) (s : S) (r : Outcome Bytes × S) (b : Bytes)
        → Breaks socket e s r
        → r.0 ≢ done b
    Breaks-fails e s r b (context_over f g u v p q z) k = ground (arith, z, k)
    Breaks-fails e s r b (context_back f u v p q z) k = absurd (
        stays s f (ap (λ x. x.0) p)
          (subst (λ x. (socket.poll x.1).0 ≡ none) (sym p) (ap (λ x. x.0) q)))
    Breaks-fails e s r b (context_late d u p c l z) k = ground (arith, z, k)
    Breaks-fails e s r b (own_late u p l z) k = ground (arith, NotPast-outcome socket u _ r z, k)
    Breaks-fails e s r b (other u p l z) k = ground (arith, NotPast-outcome socket u _ r z, k)

    Receives-Answered :
        {s : S} {r : Outcome Bytes × S} → Receives s r → (b : Bytes) → r.0 ≡ done b → Answered b
    Receives-Answered (skips_foreign c from u e a w) b q = Receives-Answered w b q
    Receives-Answered (skips_unmatched c from u e a v w) b q = Receives-Answered w b q
    Receives-Answered {r = r} (breaks e u w z) b q = absurd (Breaks-fails e u r b z q)
    Receives-Answered {s} (decides c from u o e a v z) b q =
        decided (matched-done m c b (Verdict-matched m c o v ∙ ap some (sym (ap (λ x. x.0) z) ∙ q)))
      where
        decided : b ≡ c → Answered b
        decided k = record {
          before = s;
          after = u;
          from = from;
          read =
              subst (λ x. socket.read_from default_receive_buffer_size s ≡ (datagram x from, u))
                (sym k) e;
          same = IsOurs-same socket t from a;
          accepted =
              subst (λ x. matched m x ≡ some (done b)) (sym k)
                (Verdict-matched m c o v ∙ ap some (sym (ap (λ x. x.0) z) ∙ q));
        }

    at_write :
        (n : ℕ) (r : Option Failure × S) (b : Bytes) (v : S)
        → after_write socket n t m r ≡ some (done b, v)
        → Answered b
    at_write n (none, s) b v q = Receives-Answered (receive-Receives n s (done b, v) q) b refl
    at_write n (some e, s) b v q =
        absurd (unless-fails (λ u. (failed e, u)) s b (λ u. ground arith) (ground (arith, q)))

    at_finally :
        (n : ℕ) (r : Option Failure × S) (b : Bytes) (v : S) (x : Option (Outcome Bytes × S))
        → after_write socket n t m r ≡ x
        → finally_opt socket x ≡ some (done b, v)
        → Answered b
    at_finally n r b v none e q = ground (arith, q)
    at_finally n r b v (some (o, u)) e q = at_write n r b u (e ∙ ground (arith, q))

    at_deadline :
        (n : ℕ) (packet : Bytes) (r : Option Failure × S) (b : Bytes) (v : S)
        → after_deadline socket n t packet m r ≡ some (done b, v)
        → Answered b
    at_deadline n packet (some e, s) b v q = ground (arith, q)
    at_deadline n packet (none, s) b v q =
        at_finally n (socket.write_to packet t.server (socket.watch s)) b v
          (after_write socket n t m (socket.write_to packet t.server (socket.watch s))) refl q

    at_poll :
        (n : ℕ) (packet : Bytes) (r : Option Failure × S) (b : Bytes) (v : S)
        → after_first_poll socket n t packet m r ≡ some (done b, v)
        → Answered b
    at_poll n packet (some e, s) b v q = ground (arith, q)
    at_poll n packet (none, s) b v q =
        at_deadline n packet
          (socket.set_deadline (some (deadline_of t socket.context_deadline (socket.now s).0))
            (socket.now s).1)
          b v q

    -- What an exchange returns without an error is a datagram that a read of its socket gave, from
    -- the server's address and port, and accepted by the test of replies (or there is none). (A
    -- context that has ended stays so.)
    pub exchange_datagrams-Answered :
        (n : ℕ) (packet : Bytes) (s : S) (b : Bytes) (v : S)
        → exchange_datagrams socket n t packet m s ≡ some (done b, v)
        → Answered b
    unfolding exchange_datagrams
    exchange_datagrams-Answered n packet s b v q = at_poll n packet (socket.poll s) b v q
