-- ===== src/Tray/System.antt =====
-- The state of the tray application (internal/trayapp/app_windows.go), of its goroutines, and of the
-- window's message queue.
use jlu_drcom_win.Base.{
  ℕ, suc, List, [], ◌∷◌, ◌++◌, Option, none, some, Bool, true, false, ◌==◌, if◌then◌else◌,
}
use jlu_drcom_win.Transport.Failure.{Failure}
use jlu_drcom_win.Runner.World.{State}

-- The texts of the field `status`: those of runner states (among them "Stopped" and "LoggingOut"),
-- and those of the application.
pub data Status : Type 0 where
  starting authenticated failed_check_config suspended_status : Status
  of_state : State → Status

-- Of the context of a worker there is the function that cancels it, which `cancel` names by the
-- number of the worker. The channel `done` is set and cleared with `cancel`.
pub record App : Type 0 where
  pub status : Status
  pub cancel : Option ℕ
  pub worker_err : Option Failure
  pub desired : Bool
  pub suspended : Bool
  pub exiting : Bool
  pub startup : Bool
  pub startup_busy : Bool

-- The goroutine of startClient: runClient, then its return with the error stored.
pub record Worker : Type 0 where
  pub id : ℕ
  pub cancelled : Bool
  pub returned : Bool

-- The goroutines that change the startup entry: refreshStartup before and after it has set
-- `startupBusy`, and the one of toggleStartup.
pub data Task : Type 0 where
  refresh : Task
  refreshing : Task
  toggling : Bool → Task

pub record Message : Type 0 where
  pub code : ℕ
  pub w_param : ℕ
  pub l_param : ℕ

-- Whether an item of the menu can be chosen, whether it has a check mark, and its identifier.
pub record Item : Type 0 where
  pub id : ℕ
  pub grayed : Bool
  pub checked : Bool

-- `shown` is the status in the tip of the icon, where there is an icon; `explorer` says whether the
-- shell takes calls. `menu` is the open menu. `opened` are the paths handed to the shell.
pub record System : Type 0 where
  pub app : App
  pub active : Bool
  pub next_worker : ℕ
  pub workers : List Worker
  pub tasks : List Task
  pub queue : List Message
  pub explorer : Bool
  pub shown : Option Status
  pub menu : Option (List Item)
  pub destroyed : Bool
  pub quit : Bool

abbrev pub wm_destroy : ℕ
wm_destroy = 0x0002

abbrev pub wm_close : ℕ
wm_close = 0x0010

abbrev pub wm_query_end_session : ℕ
wm_query_end_session = 0x0011

abbrev pub wm_end_session : ℕ
wm_end_session = 0x0016

abbrev pub wm_command : ℕ
wm_command = 0x0111

abbrev pub wm_power_broadcast : ℕ
wm_power_broadcast = 0x0218

abbrev pub wm_user : ℕ
wm_user = 0x0400

abbrev pub wm_tray : ℕ
wm_tray = 0x0401

abbrev pub wm_status : ℕ
wm_status = 0x0402

abbrev pub wm_worker_done : ℕ
wm_worker_done = 0x0403

-- postMessage(a.hwnd, code, 0, 0)
abbrev pub post : ℕ → System → System
post code s = record s {
  queue = s.queue ++ (record { code = code; w_param = 0; l_param = 0 }) ∷ [];
}

-- The call of the cancel function of a worker's context.
abbrev pub cancel_in : ℕ → List Worker → List Worker
cancel_in k [] = []
cancel_in k (w ∷ ws) = (if w.id == k then record w { cancelled = true } else w) ∷ cancel_in k ws

abbrev pub call_cancel : ℕ → System → System
call_cancel k s = record s { workers = cancel_in k s.workers }

-- go func() of startClient
abbrev pub go_worker : System → System
go_worker s = record s {
  next_worker = suc s.next_worker;
  workers = s.workers ++ (record { id = s.next_worker; cancelled = false; returned = false }) ∷ [];
}

-- The icon: NIM_ADD, NIM_MODIFY and NIM_DELETE.
abbrev pub add_tray_icon : System → System
add_tray_icon s = if s.explorer then record s { shown = some s.app.status } else s

abbrev pub tip_of : Option Status → Status → Option Status
tip_of none status = none
tip_of (some old) status = some status

abbrev pub modify_tip : System → System
modify_tip s = record s { shown = tip_of s.shown s.app.status }

abbrev pub remove_tray_icon : System → System
remove_tray_icon s = record s { shown = none }
