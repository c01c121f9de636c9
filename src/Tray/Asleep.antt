-- ===== src/Tray/Asleep.antt =====
-- While the computer is suspended, the tray application starts no client.
use jlu_drcom_win.Base.{
  ℕ, ◌%◌, ◌^◌, ◌==◌, ◌≡◌, ◌≢◌, ◌⊎◌, inl, inr, Bool-cases, List, ◌∷◌, refl, ap, ◌∙◌, subst, sym,
  true, arith, none,
}
use jlu_drcom_win.Tray.System.{System, Message, wm_power_broadcast, add_tray_icon}
use jlu_drcom_win.Runner.World.{State}
use jlu_drcom_win.Tray.Client.{
  on_state, start_client, stop_client, runner_done, request_exit, power_event, toggle_startup,
}
use jlu_drcom_win.Tray.Window.{
  show_menu, handle_menu, choose, on_destroy, on_close, on_end_session, window_proc,
}
use jlu_drcom_win.Tray.Window.Rules.{handle_menu_rule, window_rule}
use jlu_drcom_win.Tray.Steps.{
  Step, dispatch, receive, choose_command, report, store_error, worker_done, begin_refresh,
  end_refresh, end_toggle, explorer_changes,
}

-- The computer is suspended, and the application has started so many clients.
pub record IsAsleep (n : ℕ) (s : System) : Type 0 where
  pub suspended : s.app.suspended ≡ true
  pub started : s.next_worker ≡ n

-- The two messages of a resumption.
abbrev pub IsResumption : Message → Type 0
IsResumption m = (m.code ≡ wm_power_broadcast) × ((m.w_param ≡ 18) ⊎ (m.w_param ≡ 7))

module _ (n : ℕ) where
  start_client-IsAsleep : (s : System) → IsAsleep n s → IsAsleep n (start_client s)
  unfolding start_client
  start_client-IsAsleep s i = ground arith

  stop_client-IsAsleep : (s : System) → IsAsleep n s → IsAsleep n (stop_client s)
  unfolding stop_client
  stop_client-IsAsleep s i = ground arith

  request_exit-IsAsleep : (s : System) → IsAsleep n s → IsAsleep n (request_exit s)
  unfolding request_exit
  request_exit-IsAsleep s i = ground arith

  toggle_startup-IsAsleep : (s : System) → IsAsleep n s → IsAsleep n (toggle_startup s)
  unfolding toggle_startup
  toggle_startup-IsAsleep s i = ground arith

  power_event-IsAsleep :
      (event : ℕ) (s : System)
      → IsAsleep n s
      → event ≢ 18
      → event ≢ 7
      → IsAsleep n (power_event event s)
  unfolding power_event start_client
  power_event-IsAsleep event s i x y = ground arith

  runner_done-IsAsleep : (s : System) → IsAsleep n s → IsAsleep n (runner_done s)
  unfolding runner_done start_client
  runner_done-IsAsleep s i = ground arith

  on_state-IsAsleep : (state : State) (s : System) → IsAsleep n s → IsAsleep n (on_state state s)
  unfolding on_state
  on_state-IsAsleep state s i = ground arith

  on_destroy-IsAsleep : (s : System) → IsAsleep n s → IsAsleep n (on_destroy s)
  unfolding on_destroy
  on_destroy-IsAsleep s i = ground arith

  on_close-IsAsleep : (s : System) → IsAsleep n s → IsAsleep n (on_close s)
  unfolding on_close
  on_close-IsAsleep s i = ground (arith, request_exit-IsAsleep s i)

  on_end_session-IsAsleep :
      (w_param : ℕ) (s : System) → IsAsleep n s → IsAsleep n (on_end_session w_param s)
  unfolding on_end_session
  on_end_session-IsAsleep w_param s i = ground (arith, stop_client-IsAsleep s i)

  add_tray_icon-IsAsleep : (s : System) → IsAsleep n s → IsAsleep n (add_tray_icon s)
  add_tray_icon-IsAsleep s i = ground arith

  show_menu-IsAsleep : (s : System) → IsAsleep n s → IsAsleep n (show_menu s)
  unfolding show_menu
  show_menu-IsAsleep s i = record { suspended = i.suspended; started = i.started }

  handle_menu-IsAsleep : (cmd : ℕ) (s : System) → IsAsleep n s → IsAsleep n (handle_menu cmd s)
  handle_menu-IsAsleep cmd s i =
      handle_menu_rule (IsAsleep n) cmd s i (start_client-IsAsleep s i) (stop_client-IsAsleep s i)
        (toggle_startup-IsAsleep s i) (request_exit-IsAsleep s i)

  power_message :
      (m : Message) (s : System)
      → IsAsleep n s
      → m.code ≡ wm_power_broadcast
      → IsAsleep n (power_event m.w_param s) ⊎ IsResumption m
  power_message m s i c = elim (Bool-cases (m.w_param == 18)) [
    | inl x ↦ inr (c, inl (ground (arith, x)))
    | inr x ↦ elim (Bool-cases (m.w_param == 7)) [
      | inl y ↦ inr (c, inr (ground (arith, y)))
      | inr y ↦ inl (power_event-IsAsleep m.w_param s i (ground (arith, x)) (ground (arith, y)))
    ]
  ]

  window_proc-IsAsleep :
      (taskbar_created : ℕ) (m : Message) (s : System)
      → IsAsleep n s
      → IsAsleep n (window_proc taskbar_created m s).0 ⊎ IsResumption m
  window_proc-IsAsleep taskbar_created m s i =
      window_rule (λ u. IsAsleep n u ⊎ IsResumption m) taskbar_created m s (inl i)
        (inl (add_tray_icon-IsAsleep s i))
        (inl (record { suspended = i.suspended; started = i.started }))
        (λ c. inl (runner_done-IsAsleep s i)) (inl (on_end_session-IsAsleep m.w_param s i))
        (power_message m s i) (inl (show_menu-IsAsleep s i))
        (inl (handle_menu-IsAsleep (m.w_param % 2 ^ 16) s i)) (inl (on_close-IsAsleep s i))
        (inl (on_destroy-IsAsleep s i))

-- A step in which the window handles the message of a resumption, from its queue or from the system.
pub data Resumes (taskbar_created : ℕ) (s t : System) : Type 0 where
  from_queue :
      (m : Message) (rest : List Message)
      → IsResumption m
      → s.queue ≡ m ∷ rest
      → t ≡ (window_proc taskbar_created m (record s { queue = rest })).0
      → Resumes taskbar_created s t
  from_system :
      (m : Message)
      → IsResumption m
      → t ≡ (window_proc taskbar_created m s).0
      → Resumes taskbar_created s t

handled :
    (taskbar_created : ℕ) (m : Message) (s u t : System)
    → IsAsleep s.next_worker u
    → t ≡ (window_proc taskbar_created m u).0
    → (IsResumption m → Resumes taskbar_created s t)
    → IsAsleep s.next_worker t ⊎ Resumes taskbar_created s t
handled taskbar_created m s u t i e resumes =
    elim (window_proc-IsAsleep s.next_worker taskbar_created m u i) [
      | inl h ↦ inl (subst (IsAsleep s.next_worker) (sym e) h)
      | inr h ↦ inr (resumes h)
    ]

-- While the computer is suspended, no step of the application, of its goroutines or of the system
-- starts a client or ends the suspension, whatever a user chooses in the menu and however a client
-- ends, but one: the message of a resumption.
pub suspended-IsAsleep :
    (taskbar_created : ℕ) (s t : System)
    → Step taskbar_created s t
    → s.app.suspended ≡ true
    → IsAsleep s.next_worker t ⊎ Resumes taskbar_created s t
unfolding choose
suspended-IsAsleep taskbar_created s t (dispatch m rest d q e) x =
    handled taskbar_created m s (record s { queue = rest }) t
      (record { suspended = x; started = refl }) e (λ h. from_queue m rest h q e)
suspended-IsAsleep taskbar_created s t (receive m a b e) x =
    handled taskbar_created m s s t (record { suspended = x; started = refl }) e
      (λ h. from_system m h e)
suspended-IsAsleep taskbar_created s t (choose_command cmd items q e) x = inl (
    subst (IsAsleep s.next_worker) (sym e) (
      handle_menu-IsAsleep s.next_worker (cmd % 2 ^ 16) (record s { menu = none })
        (record { suspended = x; started = refl })))
suspended-IsAsleep taskbar_created s t (report w state f r e) x = inl (
    subst (IsAsleep s.next_worker) (sym e)
      (on_state-IsAsleep s.next_worker state s (record { suspended = x; started = refl })))
suspended-IsAsleep taskbar_created s t (store_error w err f r e) x =
    inl
      (record { suspended = ap (λ u. u.app.suspended) e ∙ x; started = ap (λ u. u.next_worker) e })
suspended-IsAsleep taskbar_created s t (worker_done w f r e) x =
    inl
      (record { suspended = ap (λ u. u.app.suspended) e ∙ x; started = ap (λ u. u.next_worker) e })
suspended-IsAsleep taskbar_created s t (begin_refresh tasks q e) x =
    inl
      (record { suspended = ap (λ u. u.app.suspended) e ∙ x; started = ap (λ u. u.next_worker) e })
suspended-IsAsleep taskbar_created s t (end_refresh enabled before after q e) x =
    inl
      (record { suspended = ap (λ u. u.app.suspended) e ∙ x; started = ap (λ u. u.next_worker) e })
suspended-IsAsleep taskbar_created s t (end_toggle enable ok before after q e) x =
    inl
      (record { suspended = ap (λ u. u.app.suspended) e ∙ x; started = ap (λ u. u.next_worker) e })
suspended-IsAsleep taskbar_created s t (explorer_changes present e) x =
    inl
      (record { suspended = ap (λ u. u.app.suspended) e ∙ x; started = ap (λ u. u.next_worker) e })
