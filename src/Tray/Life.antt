-- ===== src/Tray/Life.antt =====
-- The life of the client, as a small machine that the tray application implements.
pub mod Simulation
use jlu_drcom_win.Base.{
  ℕ, suc, ◌%◌, ◌^◌, ◌≤◌, ◌≡◌, ◌≢◌, ◌+◌, ◌⊎◌, inl, inr, refl, subst, sym, Bool, true, false, not,
  ◌&&◌, arith, none, some, Option, List, [], ◌∷◌, if◌then◌else◌,
}
use native.Mathlib.Decide.{ℕ_discrete}
use jlu_drcom_win.Transport.Failure.{Failure}
use jlu_drcom_win.Runner.World.{State}
use jlu_drcom_win.Tray.System.{
  App, System, Worker, Message, wm_worker_done, wm_close, post, add_tray_icon, modify_tip,
}
use jlu_drcom_win.Tray.Client.{
  on_state, start_client, stop_client, runner_done, request_exit, power_event, toggle_startup,
}
use jlu_drcom_win.Tray.Window.{
  show_menu, handle_menu, choose, on_destroy, on_close, on_end_session, window_proc,
}
use jlu_drcom_win.Tray.Window.Rules.{handle_menu_rule, window_rule}
use jlu_drcom_win.Tray.Steps.{
  return_in, remove_in, Step, dispatch, receive, choose_command, report, store_error, worker_done,
  begin_refresh, end_refresh, end_toggle, explorer_changes, Reach,
}
use jlu_drcom_win.Tray.Invariant.{pending, IsAlone, Inv}
use jlu_drcom_win.Tray.Reached.{Reach-Inv}

pub data Phase : Type 0 where
  idle up ending : Phase

abbrev pub phase_of : Option ℕ → List Worker → Phase
phase_of none ws = idle
phase_of (some k) [] = ending
phase_of (some k) (w ∷ ws) = if w.cancelled then ending else up

-- A login is wanted, and neither a suspension nor an exit.
abbrev pub wanted : App → Bool
wanted a = a.desired && not a.suspended && not a.exiting

-- A move of the machine, with the number of clients started: nothing; the start of a client, which is
-- wanted, while none is up; the beginning of the end; the end.
pub data IsMove (p : Phase) (n : ℕ) (w : Bool) (q : Phase) (m : ℕ) : Type 0 where
  stays : q ≡ p → m ≡ n → IsMove p n w q m
  starts : p ≢ up → q ≡ up → m ≡ suc n → w ≡ true → IsMove p n w q m
  leaves : p ≡ up → q ≡ ending → m ≡ n → IsMove p n w q m
  stops : p ≡ ending → q ≡ idle → m ≡ n → IsMove p n w q m

abbrev pub Moves : System → System → Type 0
Moves s t =
    IsMove (phase_of s.app.cancel s.workers) s.next_worker (wanted t.app)
      (phase_of t.app.cancel t.workers) t.next_worker

-- The same as a sum, which automation reads.
abbrev pub Sum : System → System → Type 0
Sum s t =
    ((phase_of t.app.cancel t.workers ≡ phase_of s.app.cancel s.workers)
      × (t.next_worker ≡ s.next_worker))
    ⊎ ((phase_of s.app.cancel s.workers ≢ up)
        × (phase_of t.app.cancel t.workers ≡ up)
        × (t.next_worker ≡ suc s.next_worker)
        × (wanted t.app ≡ true))
    ⊎ ((phase_of s.app.cancel s.workers ≡ up)
        × (phase_of t.app.cancel t.workers ≡ ending)
        × (t.next_worker ≡ s.next_worker))
    ⊎ ((phase_of s.app.cancel s.workers ≡ ending)
        × (phase_of t.app.cancel t.workers ≡ idle)
        × (t.next_worker ≡ s.next_worker))

pub Sum-Moves : (s t : System) → Sum s t → Moves s t
Sum-Moves s t (inl h) = stays h.0 h.1
Sum-Moves s t (inr (inl h)) = starts h.0 h.1 h.2 h.3
Sum-Moves s t (inr (inr (inl h))) = leaves h.0 h.1 h.2
Sum-Moves s t (inr (inr (inr h))) = stops h.0 h.1 h.2

module _ (s : System) (n : ℕ) (h : IsAlone s.app.cancel s.workers n) where
  start_client-Sum : Sum s (start_client s)
  unfolding start_client
  start_client-Sum = ground arith

  stop_client-Sum : Sum s (stop_client s)
  unfolding stop_client
  stop_client-Sum = ground arith

  request_exit-Sum : Sum s (request_exit s)
  unfolding request_exit
  request_exit-Sum = ground arith

  power_event-Sum : (event : ℕ) → Sum s (power_event event s)
  unfolding power_event start_client
  power_event-Sum event = ground arith

  runner_done-Sum : 1 ≤ n → Sum s (runner_done s)
  unfolding runner_done start_client
  runner_done-Sum l = ground arith

  toggle_startup-Sum : Sum s (toggle_startup s)
  unfolding toggle_startup
  toggle_startup-Sum = ground arith

  pub on_state-Sum : (state : State) → Sum s (on_state state s)
  unfolding on_state
  on_state-Sum state = ground arith

  on_destroy-Sum : Sum s (on_destroy s)
  unfolding on_destroy
  on_destroy-Sum = ground arith

  on_close-Sum : Sum s (on_close s)
  unfolding on_close on_destroy
  on_close-Sum = ground (arith, request_exit-Sum)

  on_end_session-Sum : (w_param : ℕ) → Sum s (on_end_session w_param s)
  unfolding on_end_session
  on_end_session-Sum w_param = ground (arith, stop_client-Sum)

  add_tray_icon-Sum : Sum s (add_tray_icon s)
  add_tray_icon-Sum = ground arith

  show_menu-Sum : Sum s (show_menu s)
  unfolding show_menu
  show_menu-Sum = inl (refl, refl)

  pub handle_menu-Sum : (cmd : ℕ) → Sum s (handle_menu cmd s)
  handle_menu-Sum cmd =
      handle_menu_rule (Sum s) cmd s (inl (refl, refl)) start_client-Sum stop_client-Sum
        toggle_startup-Sum request_exit-Sum

  pub window_proc-Sum :
      (taskbar_created : ℕ) (m : Message)
      → ((m.code ≡ wm_worker_done) × (s.active ≡ true) → 1 ≤ n)
      → Sum s (window_proc taskbar_created m s).0
  window_proc-Sum taskbar_created m ended =
      window_rule (Sum s) taskbar_created m s (inl (refl, refl)) add_tray_icon-Sum
        (inl (refl, refl)) (λ c. runner_done-Sum (ended c)) (on_end_session-Sum m.w_param)
        (λ c. power_event-Sum m.w_param) show_menu-Sum (handle_menu-Sum (m.w_param % 2 ^ 16))
        on_close-Sum on_destroy-Sum
