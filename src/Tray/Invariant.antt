-- ===== src/Tray/Invariant.antt =====
-- What holds of the tray application whenever its window's thread is between two messages.
pub mod Messages
pub mod Workers
use jlu_drcom_win.Base.{
  ℕ, zero, suc, ◌+◌, ◌≤◌, ◌≡◌, ◌≢◌, ◌⊎◌, refl, Option, none, some, Bool, true, false, ◌||◌, ◌==◌,
  if◌then◌else◌, List, [], ◌∷◌, ◌++◌, All, arith,
}
use jlu_drcom_win.Runner.World.{State}
use jlu_drcom_win.Tray.System.{
  App, Worker, Status, Message, System, wm_close, wm_worker_done, wm_status, post, call_cancel,
  go_worker, modify_tip, cancel_in,
}
use jlu_drcom_win.Tray.Client.{
  running, set_status, on_state, start_client, stop_client, request_exit, runner_done, power_event,
  toggle_startup,
}

-- How many messages of ended workers are in the queue, and whether the window is to close.
abbrev pub pending : List Message → ℕ
pending [] = 0
pending (m ∷ ms) = (if m.code == wm_worker_done then 1 else 0) + pending ms

abbrev pub closes : List Message → Bool
closes [] = false
closes (m ∷ ms) = (m.code == wm_close) || closes ms

pub pending-append :
    (ms : List Message) (m : Message)
    → pending (ms ++ m ∷ []) ≡ pending ms + (if m.code == wm_worker_done then 1 else 0)
pending-append [] m = omega arith
pending-append (x ∷ ms) m = omega (arith, pending-append ms m)

pub closes-append :
    (ms : List Message) (m : Message) → closes (ms ++ m ∷ []) ≡ (closes ms || (m.code == wm_close))
closes-append [] m = ground arith
closes-append (x ∷ ms) m = ground (arith, closes-append ms m)

-- At most one worker, which `cancel` belongs to; when it has ended, one message says so.
abbrev pub IsAlone : Option ℕ → List Worker → ℕ → Type 0
IsAlone none [] n = n ≡ 0
IsAlone none (w ∷ ws) n = ⊥
IsAlone (some k) [] n = n ≡ 1
IsAlone (some k) (w ∷ []) n = (w.id ≡ k) × (n ≡ 0)
IsAlone (some k) (w ∷ v ∷ ws) n = ⊥

-- A worker that may go on, only while that is wanted.
abbrev pub IsWanted : App → Worker → Type 0
IsWanted a w =
    (w.cancelled ≡ true) ⊎ ((a.desired ≡ true) × (a.suspended ≡ false) × (a.exiting ≡ false))

pub record Inv (s : System) : Type 0 where
  pub active : s.active ≡ true
  pub alone : IsAlone s.app.cancel s.workers (pending s.queue)
  pub wanted : All (IsWanted s.app) s.workers
  pub served :
      (s.app.desired ≡ false)
      ⊎ (s.app.suspended ≡ true)
      ⊎ (s.app.exiting ≡ true)
      ⊎ (running s.app.cancel ≡ true)
  pub leaves :
      (s.app.exiting ≡ false)
      ⊎ (running s.app.cancel ≡ true)
      ⊎ (closes s.queue ≡ true)
      ⊎ (s.destroyed ≡ true)

abbrev pub posted : ℕ → Message
posted code = record { code = code; w_param = 0; l_param = 0 }

pub on_state-Inv : (state : State) (s : System) → Inv s → Inv (on_state state s)
unfolding on_state
on_state-Inv state s i =
    ground
      (arith, pending-append s.queue (posted wm_status), closes-append s.queue (posted wm_status))

pub start_client-Inv : (s : System) → Inv s → Inv (start_client s)
unfolding start_client
start_client-Inv s i = ground arith

pub stop_client-Inv : (s : System) → Inv s → Inv (stop_client s)
unfolding stop_client
stop_client-Inv s i =
    ground
      (arith, pending-append s.queue (posted wm_status), closes-append s.queue (posted wm_status))

pub request_exit-Inv : (s : System) → Inv s → Inv (request_exit s)
unfolding request_exit
request_exit-Inv s i = ground (
  arith,
  pending-append s.queue (posted wm_status),
  closes-append s.queue (posted wm_status),
  pending-append s.queue (posted wm_close),
  closes-append s.queue (posted wm_close),
)

pub power_event-Inv : (event : ℕ) (s : System) → Inv s → Inv (power_event event s)
unfolding power_event start_client
power_event-Inv event s i = ground arith

pub toggle_startup-Inv : (s : System) → Inv s → Inv (toggle_startup s)
unfolding toggle_startup
toggle_startup-Inv s i = ground arith

-- The end of a worker, whose message has just left the queue.
pub runner_done-Inv :
    (m : Message) (s : System) (rest : List Message)
    → m.code ≡ wm_worker_done
    → s.queue ≡ m ∷ rest
    → Inv s
    → Inv (runner_done (record s { queue = rest }))
unfolding runner_done start_client
runner_done-Inv m s rest c q i =
    ground (arith, pending-append rest (posted wm_close), closes-append rest (posted wm_close))
