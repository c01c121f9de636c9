-- ===== src/Tray/Steps.antt =====
-- How the tray application runs: the window's thread, the worker, the goroutines for the startup
-- entry, and what the system does to the window, in any order.
use jlu_drcom_win.Base.{
  ℕ, ◌≡◌, ◌≢◌, Option, none, some, Bool, true, false, ◌==◌, if◌then◌else◌, List, [], ◌∷◌, ◌++◌,
}
use jlu_drcom_win.Transport.Failure.{Failure}
use jlu_drcom_win.Runner.World.{State, stopped}
use jlu_drcom_win.Tray.System.{
  of_state, Worker, Task, refresh, refreshing, toggling, Message, Item, System, wm_status,
  wm_worker_done, post, add_tray_icon,
}
use jlu_drcom_win.Tray.Client.{set_status, on_state, start_client}
use jlu_drcom_win.Tray.Window.{choose, window_proc}

abbrev pub find : ℕ → List Worker → Option Worker
find k [] = none
find k (w ∷ ws) = if w.id == k then some w else find k ws

abbrev pub return_in : ℕ → List Worker → List Worker
return_in k [] = []
return_in k (w ∷ ws) = (if w.id == k then record w { returned = true } else w) ∷ return_in k ws

abbrev pub remove_in : ℕ → List Worker → List Worker
remove_in k [] = []
remove_in k (w ∷ ws) = if w.id == k then ws else w ∷ remove_in k ws

-- What refreshStartup and the goroutine of toggleStartup write at their end. (`ok` says that
-- ConfigureStartup succeeded.)
abbrev pub refreshed : Bool → System → System
refreshed enabled s = record s { app = record s.app { startup = enabled; startup_busy = false } }

abbrev pub toggled : Bool → Bool → System → System
toggled enable ok s = record s {
  app = record s.app { startup = if ok then enable else s.app.startup; startup_busy = false };
}

-- New, with the window that createWindow makes.
abbrev pub new : Bool → System
new explorer = record {
  app = record {
    status = of_state stopped;
    cancel = none;
    worker_err = none;
    desired = false;
    suspended = false;
    exiting = false;
    startup = false;
    startup_busy = false;
  };
  active = true;
  next_worker = 0;
  workers = [];
  tasks = [];
  queue = [];
  explorer = explorer;
  shown = none;
  menu = none;
  destroyed = false;
  quit = false;
}

-- Run, from there to the message loop.
unfoldable pub launch : Bool → Bool → System
unfolding set_status start_client
launch auto_login explorer =
    let t = set_status (of_state stopped) (add_tray_icon (new explorer)) in
    let u = record t { tasks = refresh ∷ [] } in if auto_login then start_client u else u

-- The private messages are posted by the application alone.
pub data Step (taskbar_created : ℕ) (s t : System) : Type 0 where
  dispatch :
      (m : Message) (rest : List Message)
      → s.destroyed ≡ false
      → s.queue ≡ m ∷ rest
      → t ≡ (window_proc taskbar_created m (record s { queue = rest })).0
      → Step taskbar_created s t
  receive :
      (m : Message)
      → m.code ≢ wm_status
      → m.code ≢ wm_worker_done
      → t ≡ (window_proc taskbar_created m s).0
      → Step taskbar_created s t
  choose_command :
      (cmd : ℕ) (items : List Item)
      → s.menu ≡ some items
      → t ≡ choose cmd s
      → Step taskbar_created s t
  report :
      (w : Worker) (state : State)
      → find w.id s.workers ≡ some w
      → w.returned ≡ false
      → t ≡ on_state state s
      → Step taskbar_created s t
  store_error :
      (w : Worker) (err : Option Failure)
      → find w.id s.workers ≡ some w
      → w.returned ≡ false
      → t ≡ record s { workers = return_in w.id s.workers; app = record s.app { worker_err = err } }
      → Step taskbar_created s t
  worker_done :
      (w : Worker)
      → find w.id s.workers ≡ some w
      → w.returned ≡ true
      → t ≡ post wm_worker_done (record s { workers = remove_in w.id s.workers })
      → Step taskbar_created s t
  begin_refresh :
      (tasks : List Task)
      → s.tasks ≡ refresh ∷ tasks
      → t ≡ record s { tasks = refreshing ∷ tasks; app = record s.app { startup_busy = true } }
      → Step taskbar_created s t
  end_refresh :
      (enabled : Bool) (before after : List Task)
      → s.tasks ≡ before ++ refreshing ∷ after
      → t ≡ refreshed enabled (record s { tasks = before ++ after })
      → Step taskbar_created s t
  end_toggle :
      (enable ok : Bool) (before after : List Task)
      → s.tasks ≡ before ++ toggling enable ∷ after
      → t ≡ toggled enable ok (record s { tasks = before ++ after })
      → Step taskbar_created s t
  explorer_changes :
      (present : Bool)
      → t ≡ record s { explorer = present; shown = none }
      → Step taskbar_created s t

pub data Reach (taskbar_created : ℕ) : System → Type 0 where
  launched : (auto_login explorer : Bool) → Reach taskbar_created (launch auto_login explorer)
  later :
      {s t : System} → Reach taskbar_created s → Step taskbar_created s t → Reach taskbar_created t
