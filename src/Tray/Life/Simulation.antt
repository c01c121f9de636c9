-- ===== src/Tray/Life/Simulation.antt =====
-- Every step of the tray application is a move of the client's machine.
use jlu_drcom_win.Base.{ℕ, ◌%◌, ◌^◌, ◌≤◌, ◌≡◌, ◌⊎◌, subst, sym, arith, none, Option}
use jlu_drcom_win.Transport.Failure.{Failure}
use jlu_drcom_win.Tray.System.{System, Worker, wm_worker_done, post}
use jlu_drcom_win.Tray.Window.{choose}
use jlu_drcom_win.Tray.Steps.{
  return_in, remove_in, Step, dispatch, receive, choose_command, report, store_error, worker_done,
  begin_refresh, end_refresh, end_toggle, explorer_changes, Reach,
}
use jlu_drcom_win.Tray.Invariant.{pending, IsAlone, Inv}
use jlu_drcom_win.Tray.Reached.{Reach-Inv}
use jlu_drcom_win.Tray.Life.{Moves, Sum, Sum-Moves, on_state-Sum, handle_menu-Sum, window_proc-Sum}

-- The worker's own end, which leaves it to the window's thread to notice.
store-Sum :
    (s : System) (w : Worker) (err : Option Failure) (n : ℕ)
    → IsAlone s.app.cancel s.workers n
    → Sum s
        (record s { workers = return_in w.id s.workers; app = record s.app { worker_err = err } })
store-Sum s w err n h = ground arith

done-Sum :
    (s : System) (w : Worker) (n : ℕ)
    → IsAlone s.app.cancel s.workers n
    → Sum s (post wm_worker_done (record s { workers = remove_in w.id s.workers }))
done-Sum s w n h = ground arith

module _ (taskbar_created : ℕ)
    (registered : (taskbar_created ≡ 0) ⊎ (0xc000 ≤ taskbar_created)) where
  Step-Sum : (s t : System) → Step taskbar_created s t → Inv s → Sum s t
  unfolding choose
  Step-Sum s t (dispatch m rest d q e) i = subst (Sum s) (sym e) (
      window_proc-Sum (record s { queue = rest }) (pending s.queue) i.alone taskbar_created m
        (λ c. ground (arith, q, c.0)))
  Step-Sum s t (receive m a b e) i =
      subst (Sum s) (sym e)
        (window_proc-Sum s (pending s.queue) i.alone taskbar_created m (λ c. absurd (b c.0)))
  Step-Sum s t (choose_command cmd items q e) i =
      subst (Sum s) (sym e)
        (handle_menu-Sum (record s { menu = none }) (pending s.queue) i.alone (cmd % 2 ^ 16))
  Step-Sum s t (report w state f r e) i =
      subst (Sum s) (sym e) (on_state-Sum s (pending s.queue) i.alone state)
  Step-Sum s t (store_error w err f r e) i =
      subst (Sum s) (sym e) (store-Sum s w err (pending s.queue) i.alone)
  Step-Sum s t (worker_done w f r e) i =
      subst (Sum s) (sym e) (done-Sum s w (pending s.queue) i.alone)
  Step-Sum s t (begin_refresh tasks q e) i = ground arith
  Step-Sum s t (end_refresh enabled before after q e) i = ground arith
  Step-Sum s t (end_toggle enable ok before after q e) i = ground arith
  Step-Sum s t (explorer_changes present e) i = ground arith

  -- Every step from a reachable state is a move of the client's machine, or none: a client starts
  -- only while a login is wanted, and not suspended or given up for an exit, and never while another
  -- one is up; a client that is up first comes to its end, and only then is it gone or replaced.
  -- (The number that RegisterWindowMessage gives is 0 or at least 0xC000.)
  pub Step-Moves : (s t : System) → Reach taskbar_created s → Step taskbar_created s t → Moves s t
  Step-Moves s t r st = Sum-Moves s t (Step-Sum s t st (Reach-Inv taskbar_created registered r))
