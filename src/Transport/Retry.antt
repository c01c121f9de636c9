-- ===== src/Transport/Retry.antt =====
-- internal/transport/retry.go. `poll` is ctx.Err() and `fn` the exchange; both act on the state of
-- the surroundings, so a cancellation may come at any of their calls.
pub mod Bounds
pub mod Rule
use jlu_drcom_win.Base.{ℕ, zero, suc, ℤ, pos, ltb_ℤ, pos_part, Option, none, some, if◌then◌else◌}
use jlu_drcom_win.Transport.Failure.{Failure, attempts, is_timeout, Outcome, done, failed, panicked}

-- `if count < 1 { count = 1 }`
abbrev pub at_least_one : ℤ → ℕ
at_least_one count = if ltb_ℤ count (pos 1) then 1 else pos_part count

-- What follows the loop.
abbrev pub give_up : ℕ → Option Failure → Outcome (Unit {0})
give_up count none = done tt
give_up count (some e) = failed (attempts count e)

-- The checks of one round: ctx.Err(), then the error of `fn`.
module _ {S : Type 0} where
  abbrev pub after_poll : (S → Outcome (Unit {0}) × S) → Option Failure × S → Outcome (Unit {0}) × S
  after_poll try (some e, s) = (failed e, s)
  after_poll try (none, s) = try s

  abbrev pub after_attempt :
      (Failure → S → Outcome (Unit {0}) × S) → Outcome (Unit {0}) × S → Outcome (Unit {0}) × S
  after_attempt again (done u, s) = (done tt, s)
  after_attempt again (failed e, s) = if is_timeout e then again e s else (failed e, s)
  after_attempt again (panicked, s) = (panicked, s)

module _ {S : Type 0} (poll : S → Option Failure × S) (fn : S → Outcome (Unit {0}) × S) where
  -- The loop with so many attempts left, and the error of the last one.
  unfoldable pub retry_loop : ℕ → ℕ → Option Failure → S → Outcome (Unit {0}) × S
  retry_loop count zero last s = (give_up count last, s)
  retry_loop count (suc left) last s =
      after_poll
        (λ polled. after_attempt (λ e tried. retry_loop count left (some e) tried) (fn polled))
        (poll s)

  unfoldable pub retry_exchange : ℤ → S → Outcome (Unit {0}) × S
  retry_exchange count s = retry_loop (at_least_one count) (at_least_one count) none s
