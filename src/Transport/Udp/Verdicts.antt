-- ===== src/Transport/Udp/Verdicts.antt =====
-- What datagrams, and errors of a read, make of an exchange.
use jlu_drcom_win.Base.{
  ℕ, ◌≡◌, refl, sym, subst, ◌∙◌, ap, Option, none, some, Bool, true, false, arith, ◌≢◌, ◌⊎◌, inl,
  inr, ◌≤◌, ◌<◌, ltb, ◌==◌, Bool-cases, [],
}
use jlu_drcom_win.Protocol.Types.{Bytes, Error, Result, ok, err}
use jlu_drcom_win.Transport.Failure.{
  Failure, parse, timeout, deadline_exceeded, Outcome, done, failed, panicked,
}
use jlu_drcom_win.Transport.Udp.{
  Address, SocketError, Match, Socket, Transport, same_udp_addr, own_error, context_error,
  unless_ended, past_deadline, read_error, after_match, matched,
}

-- A reply that the test does not accept, though it does not refuse it either.
abbrev pub IsUnmatched : Match → Bytes → Type 0
IsUnmatched none b = ⊥
IsUnmatched (some f) b = f b ≡ some (ok false)

-- What a datagram of the server makes of the exchange: it is the result where there is no test or the
-- test accepts it; the error of the test; or a panic of the test.
abbrev pub Verdict : Match → Bytes → Outcome Bytes → Type 0
Verdict none b o = o ≡ done b
Verdict (some f) b o =
    ((f b ≡ some (ok true)) × (o ≡ done b))
    ⊎ ((e : Error) × (f b ≡ some (err e)) × (o ≡ failed (parse e)))
    ⊎ ((f b ≡ none) × (o ≡ panicked))

pub matched-IsUnmatched : (k : Match) (b : Bytes) → matched k b ≡ none → IsUnmatched k b
matched-IsUnmatched none b q = ground (arith, q)
matched-IsUnmatched (some f) b q = at_result (f b) refl q
  where
    at_result :
        (v : Option (Result Bool)) → f b ≡ v → after_match b v ≡ none → f b ≡ some (ok false)
    at_result none e q = ground (arith, q)
    at_result (some (err x)) e q = ground (arith, q)
    at_result (some (ok true)) e q = ground (arith, q)
    at_result (some (ok false)) e q = e

pub matched-Verdict :
    (k : Match) (b : Bytes) (o : Outcome Bytes) → matched k b ≡ some o → Verdict k b o
matched-Verdict none b o q = ground (arith, q)
matched-Verdict (some f) b o q = at_result (f b) refl q
  where
    at_result :
        (v : Option (Result Bool))
        → f b ≡ v
        → after_match b v ≡ some o
        → ((f b ≡ some (ok true)) × (o ≡ done b))
          ⊎ ((e : Error) × (f b ≡ some (err e)) × (o ≡ failed (parse e)))
          ⊎ ((f b ≡ none) × (o ≡ panicked))
    at_result none e q = inr (inr (e, ground (arith, q)))
    at_result (some (err x)) e q = inr (inl (x, e, ground (arith, q)))
    at_result (some (ok true)) e q = inl (e, ground (arith, q))
    at_result (some (ok false)) e q = ground (arith, q)

pub Verdict-matched :
    (k : Match) (b : Bytes) (o : Outcome Bytes) → Verdict k b o → matched k b ≡ some o
Verdict-matched none b o v = ap some (sym v)
Verdict-matched (some f) b o (inl (e, q)) = ap (after_match b) e ∙ ap some (sym q)
Verdict-matched (some f) b o (inr (inl (x, e, q))) = ap (after_match b) e ∙ ap some (sym q)
Verdict-matched (some f) b o (inr (inr (e, q))) = ap (after_match b) e ∙ ap some (sym q)

own_error-late : (e : SocketError) → e.is_late ≡ true → own_error e ≡ timeout
own_error-late e l = ground (arith, l)

own_error-other : (e : SocketError) → e.is_late ≡ false → own_error e ≡ e.failure
own_error-other e l = ground (arith, l)

module _ {S : Type 0} (socket : Socket S) where
  -- An outcome where the context has no deadline, or the clock is before it.
  abbrev pub NotPast : S → Outcome Bytes → Outcome Bytes × S → Type 0
  NotPast u o r =
      ((socket.context_deadline ≡ none) × (r ≡ (o, u)))
      ⊎ ((d : ℕ) × (socket.context_deadline ≡ some d)
          × ((socket.now u).0 < d)
          × (r ≡ (o, (socket.now u).1)))

  -- What an error of a read makes of the exchange: the error of the context, where it has ended (a
  -- second look at it may find it as it was); that its deadline is exceeded, where the clock says so;
  -- a timeout, where the transport's own deadline has passed; and else the error itself.
  pub data Breaks (e : SocketError) (s : S) (r : Outcome Bytes × S) : Type 0 where
    context_over :
        (f g : Failure) (u v : S)
        → socket.poll s ≡ (some f, u)
        → socket.poll u ≡ (some g, v)
        → r ≡ (failed g, v)
        → Breaks e s r
    context_back :
        (f : Failure) (u v : S)
        → socket.poll s ≡ (some f, u)
        → socket.poll u ≡ (none, v)
        → r ≡ (done [], v)
        → Breaks e s r
    context_late :
        (d : ℕ) (u : S)
        → socket.poll s ≡ (none, u)
        → socket.context_deadline ≡ some d
        → d ≤ (socket.now u).0
        → r ≡ (failed deadline_exceeded, (socket.now u).1)
        → Breaks e s r
    own_late :
        (u : S)
        → socket.poll s ≡ (none, u)
        → e.is_late ≡ true
        → NotPast u (failed timeout) r
        → Breaks e s r
    other :
        (u : S)
        → socket.poll s ≡ (none, u)
        → e.is_late ≡ false
        → NotPast u (failed e.failure) r
        → Breaks e s r

  own-Breaks :
      (e : SocketError) (s u : S) (r : Outcome Bytes × S)
      → socket.poll s ≡ (none, u)
      → NotPast u (failed (own_error e)) r
      → Breaks e s r
  own-Breaks e s u r p q = elim (Bool-cases e.is_late) [
    | inl l ↦ own_late u p l (subst (λ f. NotPast u (failed f) r) (own_error-late e l) q)
    | inr l ↦ other u p l (subst (λ f. NotPast u (failed f) r) (own_error-other e l) q)
  ]

  past_deadline-Breaks :
      (e : SocketError) (d : Option ℕ) (s u : S)
      → socket.context_deadline ≡ d
      → socket.poll s ≡ (none, u)
      → Breaks e s (past_deadline socket e d u)
  past_deadline-Breaks e none s u c p = own-Breaks e s u (failed (own_error e), u) p (inl (c, refl))
  past_deadline-Breaks e (some d) s u c p = elim (Bool-cases (ltb (socket.now u).0 d)) [
    | inl l ↦ rw l (
        own-Breaks e s u (failed (own_error e), (socket.now u).1) p
          (inr (d, c, ground (arith, l), refl)))
    | inr l ↦ rw l (context_late d u p c (ground (arith, l)) refl)
  ]

  pub NotPast-outcome :
      (u : S) (o : Outcome Bytes) (r : Outcome Bytes × S) → NotPast u o r → r.0 ≡ o
  NotPast-outcome u o r (inl (c, q)) = ap (λ x. x.0) q
  NotPast-outcome u o r (inr (d, c, l, q)) = ap (λ x. x.0) q

  pub read_error-Breaks : (e : SocketError) (s : S) → Breaks e s (read_error socket e s)
  unfolding read_error
  read_error-Breaks e s = at_poll (socket.poll s) refl
    where
      at_again :
          (f : Failure) (u : S) (r : Option Failure × S)
          → socket.poll s ≡ (some f, u)
          → socket.poll u ≡ r
          → Breaks e s (context_error r)
      at_again f u (some g, v) p q = context_over f g u v p q refl
      at_again f u (none, v) p q = context_back f u v p q refl

      at_poll :
          (r : Option Failure × S)
          → socket.poll s ≡ r
          → Breaks e s (unless_ended socket (past_deadline socket e socket.context_deadline) r)
      at_poll (none, u) p = past_deadline-Breaks e socket.context_deadline s u refl p
      at_poll (some f, u) p = at_again f u (socket.poll u) p refl

module _ {S : Type 0} (socket : Socket S) (t : Transport) where
  -- The address of the server, and any other one or none.
  abbrev pub IsOurs : Option Address → Type 0
  IsOurs none = ⊥
  IsOurs (some a) = (a.port ≡ t.server.port) × (socket.ip_equal a.ip t.server.ip ≡ true)

  abbrev pub IsForeign : Option Address → Type 0
  IsForeign none = Unit {0}
  IsForeign (some a) = (a.port ≢ t.server.port) ⊎ (socket.ip_equal a.ip t.server.ip ≡ false)

  pub same-IsOurs :
      (from : Option Address) → same_udp_addr socket from t.server ≡ true → IsOurs from
  same-IsOurs none q = ground (arith, q)
  same-IsOurs (some a) q = ground (arith, q)

  pub IsOurs-same :
      (from : Option Address) → IsOurs from → same_udp_addr socket from t.server ≡ true
  IsOurs-same none h = absurd h
  IsOurs-same (some a) h = ground (arith, h.0, h.1)

  pub same-IsForeign :
      (from : Option Address) → same_udp_addr socket from t.server ≡ false → IsForeign from
  same-IsForeign none q = tt
  same-IsForeign (some a) q = elim (Bool-cases (a.port == t.server.port)) [
    | inl p ↦ inr (ground (arith, q, p))
    | inr p ↦ inl (ground (arith, p))
  ]
