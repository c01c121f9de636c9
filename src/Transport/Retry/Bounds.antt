-- ===== src/Transport/Retry/Bounds.antt =====
-- How often RetryExchange calls, and what it returns.
use jlu_drcom_win.Base.{
  ℕ, zero, suc, ◌+◌, ◌≤◌, ◌<◌, ◌≡◌, refl, ℤ, Option, none, some, true, false, arith, Bool-cases,
  inl, inr,
}
use jlu_drcom_win.Transport.Failure.{Failure, attempts, is_timeout, Outcome, done, failed, panicked}
use jlu_drcom_win.Transport.Retry.{
  after_poll, after_attempt, at_least_one, retry_loop, retry_exchange,
}

pub at_least_one_pos : (count : ℤ) → 1 ≤ at_least_one count
at_least_one_pos count = ground arith

module _ {S : Type 0} (poll : S → Option Failure × S) (fn : S → Outcome (Unit {0}) × S) where
  -- So many calls, before each of which the context had not ended, and each of which timed out; and
  -- the error of the last one.
  pub data Retries (s : S) : ℕ → S → Option Failure → Type 0 where
    no_call : Retries s 0 s none
    one_more :
        {k : ℕ} {t : S} {last : Option Failure} (u v : S) (e : Failure)
        → Retries s k t last
        → poll t ≡ (none, u)
        → fn u ≡ (failed e, v)
        → is_timeout e ≡ true
        → Retries s (suc k) v (some e)

  -- After k such calls there is no other: all of them are made; the context has ended; or the next
  -- call is the last one, since it does not time out.
  pub data Stops (count k : ℕ) (t : S) (last : Option Failure)
      : Outcome (Unit {0}) × S → Type 0 where
    used_up :
        (e : Failure)
        → k ≡ count
        → last ≡ some e
        → Stops count k t last (failed (attempts count e), t)
    context_ended :
        (e : Failure) (u : S)
        → k < count
        → poll t ≡ (some e, u)
        → Stops count k t last (failed e, u)
    succeeded :
        (u v : S)
        → k < count
        → poll t ≡ (none, u)
        → fn u ≡ (done tt, v)
        → Stops count k t last (done tt, v)
    refused :
        (u v : S) (e : Failure)
        → k < count
        → poll t ≡ (none, u)
        → fn u ≡ (failed e, v)
        → is_timeout e ≡ false
        → Stops count k t last (failed e, v)
    broke_down :
        (u v : S)
        → k < count
        → poll t ≡ (none, u)
        → fn u ≡ (panicked, v)
        → Stops count k t last (panicked, v)

  -- A run from a state, with so many calls that timed out, and how it stops.
  pub record Ends (count : ℕ) (s : S) (r : Outcome (Unit {0}) × S) : Type 0 where
    pub late : ℕ
    pub reached : S
    pub last : Option Failure
    pub retries : Retries s late reached last
    pub stops : Stops count late reached last r

  module _ (count left k : ℕ) (s t : S) (last : Option Failure)
      (again : Failure → S → Outcome (Unit {0}) × S) (l : k < count) (so_far : Retries s k t last)
      (rest : (e : Failure) (v : S) → Retries s (suc k) v (some e) → Ends count s (again e v)) where
    stopped_at : (r : Outcome (Unit {0}) × S) → Stops count k t last r → Ends count s r
    stopped_at r stop = record {
      late = k;
      reached = t;
      last = last;
      retries = so_far;
      stops = stop;
    }

    attempt-Ends :
        (u : S) (r : Outcome (Unit {0}) × S)
        → poll t ≡ (none, u)
        → fn u ≡ r
        → Ends count s (after_attempt again r)
    attempt-Ends u (done x, v) p q = stopped_at (done x, v) (succeeded u v l p q)
    attempt-Ends u (panicked, v) p q = stopped_at (panicked, v) (broke_down u v l p q)
    attempt-Ends u (failed e, v) p q = elim (Bool-cases (is_timeout e)) [
      | inl late ↦ rw late (rest e v (one_more u v e so_far p q late))
      | inr final ↦ rw final (stopped_at (failed e, v) (refused u v e l p q final))
    ]

    round-Ends :
        (r : Option Failure × S)
        → poll t ≡ r
        → Ends count s (after_poll (λ a. after_attempt again (fn a)) r)
    round-Ends (some e, u) q = stopped_at (failed e, u) (context_ended e u l q)
    round-Ends (none, u) q = attempt-Ends u (fn u) q refl

  retry_loop-Ends :
      (count left k : ℕ) (last : Option Failure) (s t : S)
      → k + left ≡ count
      → 1 ≤ count
      → Retries s k t last
      → Ends count s (retry_loop poll fn count left last t)
  unfolding retry_loop
  retry_loop-Ends count zero k last s t e l no_call = absurd (omega (arith, e, l))
  retry_loop-Ends count zero k last s t e l (one_more u v f so_far p q late) = record {
    late = k;
    reached = t;
    last = last;
    retries = one_more u v f so_far p q late;
    stops = used_up f (omega (arith, e)) refl;
  }
  retry_loop-Ends count (suc left) k last s t e l so_far =
      round-Ends count left k s t last (λ f b. retry_loop poll fn count left (some f) b)
        (omega (arith, e)) so_far
        (λ f v h. retry_loop-Ends count left (suc k) (some f) s v (omega (arith, e)) l h) (poll t)
        refl

  -- RetryExchange makes at most `count` calls, and one for a count below one. It goes on only after a
  -- call that timed out, while the context has not ended. It returns at once, with what the call
  -- returned, on success, a panic or an error that is no timeout; with the error of the context where
  -- that has ended; and with the last timeout, wrapped, exactly when all `count` calls timed out.
  pub retry_exchange-Ends :
      (count : ℤ) (s : S) → Ends (at_least_one count) s (retry_exchange poll fn count s)
  unfolding retry_exchange
  retry_exchange-Ends count s =
      retry_loop-Ends (at_least_one count) (at_least_one count) 0 none s s (omega arith)
        (at_least_one_pos count) no_call
