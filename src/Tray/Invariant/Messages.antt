-- ===== src/Tray/Invariant/Messages.antt =====
-- Every message that the window handles keeps the invariant.
use jlu_drcom_win.Base.{ℕ, ◌%◌, ◌^◌, ◌≤◌, ◌≡◌, ◌≢◌, ◌⊎◌, subst, sym, true, List, ◌∷◌, arith}
use native.Mathlib.Decide.{ℕ_discrete}
use jlu_drcom_win.Tray.System.{
  Message, System, wm_close, wm_worker_done, wm_status, add_tray_icon, modify_tip,
}
use jlu_drcom_win.Tray.Client.{runner_done, request_exit}
use jlu_drcom_win.Tray.Window.{
  show_menu, handle_menu, on_destroy, on_close, on_end_session, window_proc,
}
use jlu_drcom_win.Tray.Window.Rules.{handle_menu_rule, window_rule}
use jlu_drcom_win.Tray.Invariant.{
  pending-append, closes-append, posted, Inv, start_client-Inv, stop_client-Inv, request_exit-Inv,
  power_event-Inv, toggle_startup-Inv, runner_done-Inv,
}

pub on_close-Inv : (s : System) → Inv s → Inv (on_close s)
unfolding on_close
on_close-Inv s i = ground (arith, request_exit-Inv s)

on_end_session-Inv : (w_param : ℕ) (s : System) → Inv s → Inv (on_end_session w_param s)
unfolding on_end_session
on_end_session-Inv w_param s i = ground (arith, stop_client-Inv s)

-- What leaves the fields alone that the invariant is about.
on_destroy-Inv : (s : System) → Inv s → Inv (on_destroy s)
unfolding on_destroy
on_destroy-Inv s i = ground arith

pub show_menu-Inv : (s : System) → Inv s → Inv (show_menu s)
unfolding show_menu
show_menu-Inv s i = ground arith

icon-Inv : (s : System) → Inv s → Inv (add_tray_icon s) × Inv (modify_tip s)
icon-Inv s i = ground arith

pub handle_menu-Inv : (cmd : ℕ) (s : System) → Inv s → Inv (handle_menu cmd s)
handle_menu-Inv cmd s i =
    handle_menu_rule Inv cmd s i (start_client-Inv s i) (stop_client-Inv s i)
      (toggle_startup-Inv s i) (request_exit-Inv s i)

pub receive-Inv :
    (taskbar_created : ℕ) (m : Message) (s : System)
    → m.code ≢ wm_worker_done
    → Inv s
    → Inv (window_proc taskbar_created m s).0
receive-Inv taskbar_created m s c i =
    window_rule Inv taskbar_created m s i (icon-Inv s i).0 (icon-Inv s i).1 (λ e. absurd (c e.0))
      (on_end_session-Inv m.w_param s i) (λ c. power_event-Inv m.w_param s i) (show_menu-Inv s i)
      (handle_menu-Inv (m.w_param % 2 ^ 16) s i) (on_close-Inv s i) (on_destroy-Inv s i)

-- A message that is neither of an ended worker nor to close leaves the queue.
pop-Inv :
    (m : Message) (rest : List Message) (s : System)
    → m.code ≢ wm_worker_done
    → m.code ≢ wm_close
    → s.queue ≡ m ∷ rest
    → Inv s
    → Inv (record s { queue = rest })
pop-Inv m rest s c d q i = ground arith

pop-close-Inv :
    (m : Message) (rest : List Message) (s : System)
    → m.code ≡ wm_close
    → s.queue ≡ m ∷ rest
    → Inv s
    → Inv (on_close (record s { queue = rest }))
unfolding on_close on_destroy request_exit
pop-close-Inv m rest s d q i =
    ground (arith, pending-append rest (posted wm_status), closes-append rest (posted wm_status))

module _ (taskbar_created : ℕ)
    (registered : (taskbar_created ≡ 0) ⊎ (0xc000 ≤ taskbar_created)) where
  pub proc-done :
      (m : Message) (s : System)
      → m.code ≡ wm_worker_done
      → s.active ≡ true
      → (window_proc taskbar_created m s).0 ≡ runner_done s
  unfolding window_proc
  proc-done m s e a = ground arith

  pub proc-status :
      (m : Message) (s : System)
      → m.code ≡ wm_status
      → s.active ≡ true
      → (window_proc taskbar_created m s).0 ≡ modify_tip s
  unfolding window_proc
  proc-status m s e a = ground arith

  pub proc-close :
      (m : Message) (s : System)
      → m.code ≡ wm_close
      → (window_proc taskbar_created m s).0 ≡ on_close s
  unfolding window_proc
  proc-close m s e = ground arith

  pub dispatch-Inv :
      (m : Message) (rest : List Message) (s : System)
      → s.queue ≡ m ∷ rest
      → Inv s
      → Inv (window_proc taskbar_created m (record s { queue = rest })).0
  dispatch-Inv m rest s q i = elim (ℕ_discrete m.code wm_worker_done) [
    | yes e ↦
        subst Inv (sym (proc-done m (record s { queue = rest }) e i.active))
          (runner_done-Inv m s rest e q i)
    | no c ↦ elim (ℕ_discrete m.code wm_close) [
      | yes d ↦
          subst Inv (sym (proc-close m (record s { queue = rest }) d))
            (pop-close-Inv m rest s d q i)
      | no d ↦
          receive-Inv taskbar_created m (record s { queue = rest }) c (pop-Inv m rest s c d q i)
    ]
  ]
