-- ===== src/Transport/Retry/Rule.antt =====
-- The proof rule of RetryExchange: an invariant between the calls, and a property of the result.
use jlu_drcom_win.Base.{
  ℕ, zero, suc, ◌-◌, ◌≡◌, refl, inl, inr, ℤ, Option, none, some, Bool-cases, arith,
}
use jlu_drcom_win.Transport.Failure.{Failure, attempts, is_timeout, Outcome, done, failed, panicked}
use jlu_drcom_win.Transport.Retry.{
  after_poll, after_attempt, at_least_one, retry_loop, retry_exchange,
}
use jlu_drcom_win.Transport.Retry.Bounds.{at_least_one_pos}

module _ {S : Type 0} (poll : S → Option Failure × S) (fn : S → Outcome (Unit {0}) × S)
    (I : S → Type 0) (Q : Outcome (Unit {0}) × S → Type 0)
    (stops : (s : S) (e : Failure) (t : S) → I s → poll s ≡ (some e, t) → Q (failed e, t))
    (goes_on : (s t : S) → I s → poll s ≡ (none, t) → I t)
    (succeeds : (s t : S) → I s → fn s ≡ (done tt, t) → Q (done tt, t))
    (panics : (s t : S) → I s → fn s ≡ (panicked, t) → Q (panicked, t))
    (fails : (s : S) (e : Failure) (t : S) → I s → fn s ≡ (failed e, t) → I t × Q (failed e, t))
    (gives_up : (n : ℕ) (e : Failure) (s : S) → I s → Q (failed (attempts n e), s)) where
  attempt_rule :
      (again : Failure → S → Outcome (Unit {0}) × S)
      → ((e : Failure) (t : S) → I t → Q (again e t))
      → (s : S) (r : Outcome (Unit {0}) × S) → I s
      → fn s ≡ r
      → Q (after_attempt again r)
  attempt_rule again ih s (done u, t) i q = succeeds s t i q
  attempt_rule again ih s (panicked, t) i q = panics s t i q
  attempt_rule again ih s (failed e, t) i q = elim (Bool-cases (is_timeout e)) [
    | inl late ↦ rw late (ih e t (fails s e t i q).0)
    | inr final ↦ rw final (fails s e t i q).1
  ]

  round_rule :
      (again : Failure → S → Outcome (Unit {0}) × S)
      → ((e : Failure) (t : S) → I t → Q (again e t))
      → (s : S) (r : Option Failure × S) → I s
      → poll s ≡ r
      → Q (after_poll (λ t. after_attempt again (fn t)) r)
  round_rule again ih s (some e, t) i q = stops s e t i q
  round_rule again ih s (none, t) i q = attempt_rule again ih t (fn t) (goes_on s t i q) refl

  loop_rule :
      (count left : ℕ) (last : Failure) (s : S)
      → I s
      → Q (retry_loop poll fn count left (some last) s)
  unfolding retry_loop
  loop_rule count zero last s i = gives_up count last s i
  loop_rule count (suc left) last s i =
      round_rule (λ e t. retry_loop poll fn count left (some e) t) (loop_rule count left) s (poll s)
        i refl

  first_rule :
      (count left : ℕ) (s : S)
      → left ≡ suc (left - 1)
      → I s
      → Q (retry_loop poll fn count left none s)
  unfolding retry_loop
  first_rule count zero s e i = absurd (omega arith)
  first_rule count (suc left) s e i =
      round_rule (λ e t. retry_loop poll fn count left (some e) t) (loop_rule count left) s (poll s)
        i refl

  pub retry_rule : (count : ℤ) (s : S) → I s → Q (retry_exchange poll fn count s)
  unfolding retry_exchange
  retry_rule count s i =
      first_rule (at_least_one count) (at_least_one count) s (omega (arith, at_least_one_pos count))
        i
