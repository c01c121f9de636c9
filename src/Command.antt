-- ===== src/Command.antt =====
-- cmd/drcom-tray/main.go, and AcquireInstance of internal/trayapp/lifecycle_windows.go: the steps of
-- the program and what they acquire and release, in order.
pub mod Held
use jlu_drcom_win.Base.{
  ℕ, ◌==◌, Bool, true, false, if◌then◌else◌, List, [], ◌∷◌, ◌++◌, Option, none, some, ◌⊎◌, inl, inr,
}
use jlu_drcom_win.Protocol.Types.{Bytes}
use jlu_drcom_win.Transport.Failure.{Failure}

pub record Flags : Type 0 where
  pub config_path : Bytes
  pub auto_login : Bool
  pub startup : Bytes

-- The calls of the program, each made once at most, by what they return: os.Executable; the path of
-- config.toml beside it; flag.Parse with that default (a number where it ends the
-- process with this code); filepath.Abs;
-- ConfigureStartup; the handle and the error code of CreateMutex; UserLogger; and App.Run.
pub record Calls : Type 0 where
  pub executable : Failure ⊎ Bytes
  pub config_beside : Bytes → Bytes
  pub parse_flags : Bytes → ℕ ⊎ Flags
  pub absolute : Bytes → Failure ⊎ Bytes
  pub configure_startup : Bytes → Bytes → Option Failure
  pub create_mutex : ℕ × ℕ
  pub user_logger : Option Failure
  pub run_app : Bytes → Bool → Option Failure

pub data Message : Type 0 where
  tray_starting tray_failed tray_stopped : Message

-- What the program does, in the order of time.
pub data Event : Type 0 where
  configured : Bytes → Bytes → Event
  mutex_created mutex_closed : ℕ → Event
  log_opened log_closed : Event
  logged : Message → Event
  app_ran : Bytes → Bool → Event
  error_shown : Event

-- The errors of `run`.
pub data RunError : Type 0 where
  plain : Failure → RunError
  no_mutex : ℕ → RunError
  no_log_folder : Failure → RunError

-- How `run` ends, or that flag.Parse has ended the process.
pub data Ended : Type 0 where
  returned : Option RunError → Ended
  exited : ℕ → Ended

abbrev pub error_already_exists : ℕ
error_already_exists = 183

-- AcquireInstance: the handle, and whether the program is already running.
abbrev pub acquire_instance : ℕ × ℕ → RunError ⊎ (ℕ × Bool)
acquire_instance (handle, e) =
    if handle == 0 then inl (no_mutex e) else inr (handle, e == error_already_exists)

abbrev pub plain_error : Option Failure → Option RunError
plain_error none = none
plain_error (some e) = some (plain e)

-- `defer f()`, with what comes before it and after it.
abbrev pub deferring : Event → Ended × List Event → Event → Ended × List Event
deferring before (r, events) f = (r, before ∷ (events ++ f ∷ []))

abbrev pub after_app : Option Failure → Ended × List Event
after_app none = (returned none, logged tray_stopped ∷ [])
after_app (some e) = (returned (some (plain e)), logged tray_failed ∷ [])

abbrev pub with_app : Bytes → Bool → Ended × List Event → Ended × List Event
with_app path auto (r, events) = (r, logged tray_starting ∷ app_ran path auto ∷ events)

-- The exit code of the process, and all that it does.
abbrev pub exit_with : Ended × List Event → ℕ × List Event
exit_with (returned none, events) = (0, events)
exit_with (returned (some e), events) = (1, events ++ error_shown ∷ [])
exit_with (exited code, events) = (code, events)

module _ (calls : Calls) where
  abbrev pub after_logger : Flags → Bytes → Option Failure → Ended × List Event
  after_logger flags path (some e) = (returned (some (no_log_folder e)), [])
  after_logger flags path none =
      deferring log_opened
        (with_app path flags.auto_login (after_app (calls.run_app path flags.auto_login)))
        log_closed

  abbrev pub unless_running : Flags → Bytes → Bool → Ended × List Event
  unless_running flags path true = (returned none, [])
  unless_running flags path false = after_logger flags path calls.user_logger

  abbrev pub after_acquire : Flags → Bytes → RunError ⊎ (ℕ × Bool) → Ended × List Event
  after_acquire flags path (inl e) = (returned (some e), [])
  after_acquire flags path (inr (handle, running)) =
      deferring (mutex_created handle) (unless_running flags path running) (mutex_closed handle)

  -- `if *startup != ""`
  abbrev pub after_mode : Flags → Bytes → Bytes → Ended × List Event
  after_mode flags path [] = after_acquire flags path (acquire_instance calls.create_mutex)
  after_mode flags path (c ∷ mode) = (
    returned (plain_error (calls.configure_startup (c ∷ mode) path)),
    configured (c ∷ mode) path ∷ [],
  )

  abbrev pub after_abs : Flags → Failure ⊎ Bytes → Ended × List Event
  after_abs flags (inl e) = (returned (some (plain e)), [])
  after_abs flags (inr path) = after_mode flags path flags.startup

  abbrev pub after_flags : ℕ ⊎ Flags → Ended × List Event
  after_flags (inl code) = (exited code, [])
  after_flags (inr flags) = after_abs flags (calls.absolute flags.config_path)

  abbrev pub after_executable : Failure ⊎ Bytes → Ended × List Event
  after_executable (inl e) = (returned (some (plain e)), [])
  after_executable (inr exe) = after_flags (calls.parse_flags (calls.config_beside exe))

  unfoldable pub run : Ended × List Event
  run = after_executable calls.executable

  unfoldable pub main : ℕ × List Event
  main = exit_with run
