-- ===== src/Tray/Ours.antt =====
-- The queue of the window holds the messages that the application posts.
use jlu_drcom_win.Base.{
  ℕ, ◌%◌, ◌^◌, ◌≡◌, ◌⊎◌, subst, sym, Bool, arith, none, List, [], ◌∷◌, ◌++◌, All,
}
use jlu_drcom_win.Tray.System.{System, Message, add_tray_icon, wm_status, wm_worker_done, wm_close}
use jlu_drcom_win.Runner.World.{State}
use jlu_drcom_win.Tray.Client.{
  on_state, start_client, stop_client, runner_done, request_exit, power_event, toggle_startup,
}
use jlu_drcom_win.Tray.Window.{
  show_menu, handle_menu, choose, on_destroy, on_close, on_end_session, window_proc,
}
use jlu_drcom_win.Tray.Window.Rules.{handle_menu_rule, window_rule}
use jlu_drcom_win.Tray.Steps.{
  launch, Step, dispatch, receive, choose_command, report, store_error, worker_done, begin_refresh,
  end_refresh, end_toggle, explorer_changes, Reach, launched, later,
}
use jlu_drcom_win.Tray.Invariant.{posted}

abbrev pub IsOurs : Message → Type 0
IsOurs m = (m.code ≡ wm_status) ⊎ (m.code ≡ wm_worker_done) ⊎ (m.code ≡ wm_close)

pub All-post :
    (ms : List Message) (m : Message) → All IsOurs ms → IsOurs m → All IsOurs (ms ++ m ∷ [])
All-post [] m h p = (p, tt)
All-post (x ∷ ms) m h p = (h.0, All-post ms m h.1 p)

pub record HasOurs (s : System) : Type 0 where
  pub ours : All IsOurs s.queue

on_state-HasOurs : (state : State) (s : System) → HasOurs s → HasOurs (on_state state s)
unfolding on_state
on_state-HasOurs state s i = ground (arith, All-post s.queue (posted wm_status) i.ours)

start_client-HasOurs : (s : System) → HasOurs s → HasOurs (start_client s)
unfolding start_client
start_client-HasOurs s i = ground arith

stop_client-HasOurs : (s : System) → HasOurs s → HasOurs (stop_client s)
unfolding stop_client
stop_client-HasOurs s i = ground (arith, All-post s.queue (posted wm_status) i.ours)

request_exit-HasOurs : (s : System) → HasOurs s → HasOurs (request_exit s)
unfolding request_exit
request_exit-HasOurs s i =
    ground
      (arith, All-post s.queue (posted wm_status) i.ours, All-post s.queue (posted wm_close) i.ours)

toggle_startup-HasOurs : (s : System) → HasOurs s → HasOurs (toggle_startup s)
unfolding toggle_startup
toggle_startup-HasOurs s i = ground arith

power_event-HasOurs : (event : ℕ) (s : System) → HasOurs s → HasOurs (power_event event s)
unfolding power_event start_client
power_event-HasOurs event s i = ground arith

pub runner_done-HasOurs : (s : System) → HasOurs s → HasOurs (runner_done s)
unfolding runner_done start_client
runner_done-HasOurs s i = ground (arith, All-post s.queue (posted wm_close) i.ours)

on_destroy-HasOurs : (s : System) → HasOurs s → HasOurs (on_destroy s)
unfolding on_destroy
on_destroy-HasOurs s i = ground arith

pub on_close-HasOurs : (s : System) → HasOurs s → HasOurs (on_close s)
unfolding on_close
on_close-HasOurs s i = ground (arith, request_exit-HasOurs s i)

on_end_session-HasOurs : (w_param : ℕ) (s : System) → HasOurs s → HasOurs (on_end_session w_param s)
unfolding on_end_session
on_end_session-HasOurs w_param s i = ground (arith, stop_client-HasOurs s i)

add_tray_icon-HasOurs : (s : System) → HasOurs s → HasOurs (add_tray_icon s)
add_tray_icon-HasOurs s i = ground arith

show_menu-HasOurs : (s : System) → HasOurs s → HasOurs (show_menu s)
unfolding show_menu
show_menu-HasOurs s i = record { ours = i.ours }

handle_menu-HasOurs : (cmd : ℕ) (s : System) → HasOurs s → HasOurs (handle_menu cmd s)
handle_menu-HasOurs cmd s i =
    handle_menu_rule HasOurs cmd s i (start_client-HasOurs s i) (stop_client-HasOurs s i)
      (toggle_startup-HasOurs s i) (request_exit-HasOurs s i)

window_proc-HasOurs :
    (taskbar_created : ℕ) (m : Message) (s : System)
    → HasOurs s
    → HasOurs (window_proc taskbar_created m s).0
window_proc-HasOurs taskbar_created m s i =
    window_rule HasOurs taskbar_created m s i (add_tray_icon-HasOurs s i) (record { ours = i.ours })
      (λ c. runner_done-HasOurs s i) (on_end_session-HasOurs m.w_param s i)
      (λ c. power_event-HasOurs m.w_param s i) (show_menu-HasOurs s i)
      (handle_menu-HasOurs (m.w_param % 2 ^ 16) s i) (on_close-HasOurs s i) (on_destroy-HasOurs s i)

pop-HasOurs :
    (s : System) (m : Message) (rest : List Message)
    → s.queue ≡ m ∷ rest
    → HasOurs s
    → HasOurs (record s { queue = rest })
pop-HasOurs s m rest q i = ground arith

launch-HasOurs : (auto_login explorer : Bool) → HasOurs (launch auto_login explorer)
unfolding launch
launch-HasOurs auto_login explorer = ground arith

module _ (taskbar_created : ℕ) where
  Step-HasOurs : (s t : System) → Step taskbar_created s t → HasOurs s → HasOurs t
  unfolding choose
  Step-HasOurs s t (dispatch m rest d q e) i =
      subst HasOurs (sym e) (
        window_proc-HasOurs taskbar_created m (record s { queue = rest })
          (pop-HasOurs s m rest q i))
  Step-HasOurs s t (receive m a b e) i =
      subst HasOurs (sym e) (window_proc-HasOurs taskbar_created m s i)
  Step-HasOurs s t (choose_command cmd items q e) i =
      subst HasOurs (sym e)
        (handle_menu-HasOurs (cmd % 2 ^ 16) (record s { menu = none }) (record { ours = i.ours }))
  Step-HasOurs s t (report w state f r e) i = subst HasOurs (sym e) (on_state-HasOurs state s i)
  Step-HasOurs s t (store_error w err f r e) i = ground arith
  Step-HasOurs s t (worker_done w f r e) i =
      ground (arith, All-post s.queue (posted wm_worker_done) i.ours)
  Step-HasOurs s t (begin_refresh tasks q e) i = ground arith
  Step-HasOurs s t (end_refresh enabled before after q e) i = ground arith
  Step-HasOurs s t (end_toggle enable ok before after q e) i = ground arith
  Step-HasOurs s t (explorer_changes present e) i = ground arith

  pub Reach-HasOurs : {s : System} → Reach taskbar_created s → HasOurs s
  Reach-HasOurs (launched auto_login explorer) = launch-HasOurs auto_login explorer
  Reach-HasOurs (later {s} {t} r st) = Step-HasOurs s t st (Reach-HasOurs r)
