-- ===== src/Tray/Exit.antt =====
-- After a request to exit, the tray application starts no client and does not forget the request.
use jlu_drcom_win.Base.{ℕ, ◌%◌, ◌^◌, ◌≡◌, refl, subst, sym, true, arith, none}
use jlu_drcom_win.Tray.System.{System, Message, add_tray_icon}
use jlu_drcom_win.Runner.World.{State}
use jlu_drcom_win.Tray.Client.{
  on_state, start_client, stop_client, runner_done, request_exit, power_event, toggle_startup,
}
use jlu_drcom_win.Tray.Window.{
  show_menu, handle_menu, choose, on_destroy, on_close, on_end_session, window_proc,
}
use jlu_drcom_win.Tray.Window.Rules.{handle_menu_rule, window_rule}
use jlu_drcom_win.Tray.Steps.{
  Step, dispatch, receive, choose_command, report, store_error, worker_done, begin_refresh,
  end_refresh, end_toggle, explorer_changes,
}

-- The application is to exit, and has started so many clients.
pub record IsLeaving (n : ℕ) (s : System) : Type 0 where
  pub exiting : s.app.exiting ≡ true
  pub started : s.next_worker ≡ n

module _ (n : ℕ) where
  start_client-IsLeaving : (s : System) → IsLeaving n s → IsLeaving n (start_client s)
  unfolding start_client
  start_client-IsLeaving s i = ground arith

  stop_client-IsLeaving : (s : System) → IsLeaving n s → IsLeaving n (stop_client s)
  unfolding stop_client
  stop_client-IsLeaving s i = ground arith

  request_exit-IsLeaving : (s : System) → IsLeaving n s → IsLeaving n (request_exit s)
  unfolding request_exit
  request_exit-IsLeaving s i = ground arith

  toggle_startup-IsLeaving : (s : System) → IsLeaving n s → IsLeaving n (toggle_startup s)
  unfolding toggle_startup
  toggle_startup-IsLeaving s i = ground arith

  power_event-IsLeaving :
      (event : ℕ) (s : System) → IsLeaving n s → IsLeaving n (power_event event s)
  unfolding power_event start_client
  power_event-IsLeaving event s i = ground arith

  runner_done-IsLeaving : (s : System) → IsLeaving n s → IsLeaving n (runner_done s)
  unfolding runner_done start_client
  runner_done-IsLeaving s i = ground arith

  on_state-IsLeaving : (state : State) (s : System) → IsLeaving n s → IsLeaving n (on_state state s)
  unfolding on_state
  on_state-IsLeaving state s i = ground arith

  on_destroy-IsLeaving : (s : System) → IsLeaving n s → IsLeaving n (on_destroy s)
  unfolding on_destroy
  on_destroy-IsLeaving s i = ground arith

  on_close-IsLeaving : (s : System) → IsLeaving n s → IsLeaving n (on_close s)
  unfolding on_close
  on_close-IsLeaving s i = ground (arith, request_exit-IsLeaving s i)

  on_end_session-IsLeaving :
      (w_param : ℕ) (s : System) → IsLeaving n s → IsLeaving n (on_end_session w_param s)
  unfolding on_end_session
  on_end_session-IsLeaving w_param s i = ground (arith, stop_client-IsLeaving s i)

  add_tray_icon-IsLeaving : (s : System) → IsLeaving n s → IsLeaving n (add_tray_icon s)
  add_tray_icon-IsLeaving s i = ground arith

  show_menu-IsLeaving : (s : System) → IsLeaving n s → IsLeaving n (show_menu s)
  unfolding show_menu
  show_menu-IsLeaving s i = record { exiting = i.exiting; started = i.started }

  handle_menu-IsLeaving : (cmd : ℕ) (s : System) → IsLeaving n s → IsLeaving n (handle_menu cmd s)
  handle_menu-IsLeaving cmd s i =
      handle_menu_rule (IsLeaving n) cmd s i (start_client-IsLeaving s i)
        (stop_client-IsLeaving s i) (toggle_startup-IsLeaving s i) (request_exit-IsLeaving s i)

  window_proc-IsLeaving :
      (taskbar_created : ℕ) (m : Message) (s : System)
      → IsLeaving n s
      → IsLeaving n (window_proc taskbar_created m s).0
  window_proc-IsLeaving taskbar_created m s i =
      window_rule (IsLeaving n) taskbar_created m s i (add_tray_icon-IsLeaving s i)
        (record { exiting = i.exiting; started = i.started }) (λ c. runner_done-IsLeaving s i)
        (on_end_session-IsLeaving m.w_param s i) (λ c. power_event-IsLeaving m.w_param s i)
        (show_menu-IsLeaving s i) (handle_menu-IsLeaving (m.w_param % 2 ^ 16) s i)
        (on_close-IsLeaving s i) (on_destroy-IsLeaving s i)

-- After a request to exit, every step of the application, of its goroutines or of the system keeps
-- the request, and starts no client.
pub exiting-IsLeaving :
    (taskbar_created : ℕ) (s t : System)
    → Step taskbar_created s t
    → s.app.exiting ≡ true
    → IsLeaving s.next_worker t
unfolding choose
exiting-IsLeaving taskbar_created s t (dispatch m rest d q e) x =
    subst (IsLeaving s.next_worker) (sym e) (
      window_proc-IsLeaving s.next_worker taskbar_created m (record s { queue = rest })
        (record { exiting = x; started = refl }))
exiting-IsLeaving taskbar_created s t (receive m a b e) x =
    subst (IsLeaving s.next_worker) (sym e) (
      window_proc-IsLeaving s.next_worker taskbar_created m s
        (record { exiting = x; started = refl }))
exiting-IsLeaving taskbar_created s t (choose_command cmd items q e) x =
    subst (IsLeaving s.next_worker) (sym e) (
      handle_menu-IsLeaving s.next_worker (cmd % 2 ^ 16) (record s { menu = none })
        (record { exiting = x; started = refl }))
exiting-IsLeaving taskbar_created s t (report w state f r e) x =
    subst (IsLeaving s.next_worker) (sym e)
      (on_state-IsLeaving s.next_worker state s (record { exiting = x; started = refl }))
exiting-IsLeaving taskbar_created s t (store_error w err f r e) x = ground arith
exiting-IsLeaving taskbar_created s t (worker_done w f r e) x = ground arith
exiting-IsLeaving taskbar_created s t (begin_refresh tasks q e) x = ground arith
exiting-IsLeaving taskbar_created s t (end_refresh enabled before after q e) x = ground arith
exiting-IsLeaving taskbar_created s t (end_toggle enable ok before after q e) x = ground arith
exiting-IsLeaving taskbar_created s t (explorer_changes present e) x = ground arith
