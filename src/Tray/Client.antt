-- ===== src/Tray/Client.antt =====
-- internal/trayapp/app_windows.go and lifecycle_windows.go: the operations on the client. Each runs on
-- the thread of the window; the goroutines touch `status`, `workerErr` and the startup fields only.
use jlu_drcom_win.Base.{
  ℕ, Option, none, some, Bool, true, false, not, ◌&&◌, ◌||◌, ◌==◌, if◌then◌else◌, [], ◌∷◌, ◌++◌,
}
use jlu_drcom_win.Transport.Failure.{Failure, is_canceled}
use jlu_drcom_win.Runner.World.{State, online, stopped, logging_out}
use jlu_drcom_win.Tray.System.{
  Status, starting, authenticated, failed_check_config, suspended_status, of_state, App, toggling,
  System, wm_close, wm_status, post, call_cancel, go_worker, modify_tip,
}

unfoldable pub set_status : Status → System → System
set_status status s = post wm_status (record s { app = record s.app { status = status } })

-- The callback OnState of runClient.
unfoldable pub on_state : State → System → System
unfolding set_status
on_state online s = set_status authenticated s
on_state state s = set_status (of_state state) s

abbrev pub running : Option ℕ → Bool
running none = false
running (some k) = true

-- startClient, behind its first test
abbrev pub start_unless_running : Option ℕ → System → System
start_unless_running (some k) s = s
start_unless_running none s = go_worker (
    modify_tip (record s {
      app = record s.app { cancel = some s.next_worker; exiting = false; status = starting };
    }))

unfoldable pub start_client : System → System
start_client s =
    if s.app.exiting || s.app.suspended
    then s
    else start_unless_running s.app.cancel (record s { app = record s.app { desired = true } })

abbrev pub log_out_worker : Option ℕ → System → System
log_out_worker none s = s
log_out_worker (some k) s = call_cancel k (set_status (of_state logging_out) s)

unfoldable pub stop_client : System → System
unfolding set_status
stop_client s = log_out_worker s.app.cancel (record s { app = record s.app { desired = false } })

abbrev pub exit_worker : Option ℕ → System → System
exit_worker none s = post wm_close s
exit_worker (some k) s = call_cancel k (set_status (of_state logging_out) s)

unfoldable pub request_exit : System → System
unfolding set_status
request_exit s =
    if s.app.exiting
    then s
    else exit_worker s.app.cancel
        (record s { app = record s.app { exiting = true; desired = false } })

-- err != nil && !errors.Is(err, context.Canceled)
abbrev pub has_failed : Option Failure → Bool
has_failed none = false
has_failed (some e) = not (is_canceled e)

-- The fields that runnerDone sets.
abbrev pub after_worker : App → App
after_worker a = record a {
  cancel = none;
  desired = if has_failed a.worker_err then false else a.desired;
  status =
      if a.suspended
      then suspended_status
      else if has_failed a.worker_err
      then failed_check_config
      else of_state stopped;
}

unfoldable pub runner_done : System → System
runner_done s =
    let t = modify_tip (record s { app = after_worker s.app }) in
    if t.app.exiting
    then post wm_close t
    else if t.app.desired && not t.app.suspended
    then start_client t
    else t

abbrev pub cancel_running : Option ℕ → System → System
cancel_running none s = s
cancel_running (some k) s = call_cancel k s

-- The switch of powerEvent: suspend, and the two events of a resume.
abbrev pub power_switch : ℕ → System → System
power_switch event s =
    if event == 4
    then cancel_running s.app.cancel (record s { app = record s.app { suspended = true } })
    else if (event == 18) || (event == 7)
    then record s { app = record s.app { suspended = false } }
    else s

unfoldable pub power_event : ℕ → System → System
power_event event s =
    let t = power_switch event s in
    if t.app.desired && not t.app.suspended && not (running t.app.cancel) && not t.app.exiting
    then start_client t
    else t

unfoldable pub toggle_startup : System → System
toggle_startup s = if s.app.startup_busy then s else record s {
  app = record s.app { startup_busy = true };
  tasks = s.tasks ++ toggling (not s.app.startup) ∷ [];
}
