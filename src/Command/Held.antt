-- ===== src/Command/Held.antt =====
-- What the program holds while it runs: the mutex of the instance, and the log.
use jlu_drcom_win.Base.{
  ℕ, ◌≡◌, refl, ap, ◌∙◌, ◌==◌, Bool, true, false, Bool-cases, if◌then◌else◌, List, [], ◌∷◌, ◌++◌,
  Option, none, some, ◌⊎◌, inl, inr, arith,
}
use jlu_drcom_win.Protocol.Types.{Bytes}
use jlu_drcom_win.Protocol.Buffer.{◌>>=◌}
use jlu_drcom_win.Transport.Failure.{Failure}
use jlu_drcom_win.Command.{
  Flags, Calls, Event, configured, mutex_created, mutex_closed, log_opened, log_closed, logged,
  app_ran, error_shown, Ended, returned, exited, error_already_exists, acquire_instance,
  after_acquire, after_mode, after_abs, after_flags, after_executable, run, exit_with, main,
}

-- Nothing; the mutex with this handle; that and the log, before App.Run and after it; nothing any
-- more, with the error shown.
pub data Held : Type 0 where
  free told : Held
  instance_held logging served : ℕ → Held

-- The order that is asked for: the log is opened only with the mutex, and only by the first instance;
-- App.Run is called only with both, once; both are released in reverse order, the mutex by its
-- handle; and an error is shown at the end, with nothing held.
abbrev pub step : Bool → Held → Event → Option Held
step already free (mutex_created h) = some (instance_held h)
step already free (configured mode path) = some free
step already free error_shown = some told
step already (instance_held h) (mutex_closed k) = if h == k then some free else none
step already (instance_held h) log_opened = if already then none else some (logging h)
step already (logging h) (logged m) = some (logging h)
step already (logging h) (app_ran path auto) = some (served h)
step already (served h) (logged m) = some (served h)
step already (served h) log_closed = some (instance_held h)
step already _ _ = none

abbrev pub replay : Bool → Held → List Event → Option Held
replay already held [] = some held
replay already held (e ∷ events) = step already held e >>= λ next. replay already next events

abbrev pub final : Ended → Held
final (returned (some e)) = told
final (returned none) = free
final (exited code) = free

abbrev Balanced : Bool → Ended × List Event → Type 0
Balanced already r = replay already free r.1 ≡ some free

closes :
    (already : Bool) (h : ℕ) → replay already (instance_held h) (mutex_closed h ∷ []) ≡ some free
closes already h = ground arith

replay-append :
    (already : Bool) (events more : List Event) (held : Held)
    → replay already held (events ++ more)
      ≡ (replay already held events >>= λ next. replay already next more)
replay-append already [] more held = refl
replay-append already (e ∷ events) more held =
    at_step (step already held e) (λ next. replay-append already events more next)
  where
    at_step :
        (o : Option Held)
        → ((next : Held)
            → replay already next (events ++ more)
              ≡ (replay already next events >>= λ next. replay already next more))
        → (o >>= λ next. replay already next (events ++ more))
          ≡ (o >>= λ next. replay already next events) >>= λ next. replay already next more
    at_step none ih = refl
    at_step (some next) ih = ih next

exit-final :
    (already : Bool) (r : Ended × List Event)
    → Balanced already r
    → replay already free (exit_with r).1 ≡ some (final r.0)
exit-final already (returned none, events) h = h
exit-final already (exited code, events) h = h
exit-final already (returned (some e), events) h =
    replay-append already events (error_shown ∷ []) free
    ∙ ap (λ o. o >>= λ next. replay already next (error_shown ∷ [])) h

module _ (calls : Calls) where
  running-Balanced :
      (flags : Flags) (path : Bytes) (h : ℕ) (already : Bool) (log : Option Failure)
      (app : Option Failure)
      → calls.user_logger ≡ log
      → calls.run_app path flags.auto_login ≡ app
      → Balanced already (after_acquire calls flags path (inr (h, already)))
  running-Balanced flags path h true log app p q = closes true h
  running-Balanced flags path h false (some e) app p q = rw p (closes false h)
  running-Balanced flags path h false none none p q = rw p (rw q (closes false h))
  running-Balanced flags path h false none (some e) p q = rw p (rw q (closes false h))

  acquire-Balanced :
      (flags : Flags) (path : Bytes) (h e : ℕ)
      → Balanced
          (e == error_already_exists)
          (after_acquire calls flags path (acquire_instance (h, e)))
  acquire-Balanced flags path h e = elim (Bool-cases (h == 0)) [
    | inl q ↦ rw q refl
    | inr q ↦ rw q (
        running-Balanced flags path h (e == error_already_exists) calls.user_logger
          (calls.run_app path flags.auto_login) refl refl)
  ]

  abbrev already : Bool
  already = calls.create_mutex.1 == error_already_exists

  mode-Balanced :
      (flags : Flags) (path mode : Bytes) → Balanced already (after_mode calls flags path mode)
  mode-Balanced flags path [] =
      acquire-Balanced flags path calls.create_mutex.0 calls.create_mutex.1
  mode-Balanced flags path (c ∷ mode) = refl

  abs-Balanced : (flags : Flags) (r : Failure ⊎ Bytes) → Balanced already (after_abs calls flags r)
  abs-Balanced flags (inl e) = refl
  abs-Balanced flags (inr path) = mode-Balanced flags path flags.startup

  flags-Balanced : (r : ℕ ⊎ Flags) → Balanced already (after_flags calls r)
  flags-Balanced (inl code) = refl
  flags-Balanced (inr flags) = abs-Balanced flags (calls.absolute flags.config_path)

  executable-Balanced : (r : Failure ⊎ Bytes) → Balanced already (after_executable calls r)
  executable-Balanced (inl e) = refl
  executable-Balanced (inr exe) = flags-Balanced (calls.parse_flags (calls.config_beside exe))

  -- Whatever its calls return, the program keeps this order. It opens the log only while it has the
  -- mutex and is the first instance, runs the application only with both, once at most, and closes the
  -- log and then the mutex, by the handle that it got; so it ends with neither. It shows an error at
  -- the end, after that, exactly when `run` returns one.
  pub main-final :
      replay (calls.create_mutex.1 == error_already_exists) free (main calls).1
      ≡ some (final (run calls).0)
  unfolding main run
  main-final =
      exit-final already (after_executable calls calls.executable)
        (executable-Balanced calls.executable)
