-- ===== src/Tray/Reached.antt =====
-- Every reachable state of the tray application satisfies the invariant.
use jlu_drcom_win.Base.{
  ℕ, ◌%◌, ◌^◌, ◌≤◌, ◌≡◌, ◌⊎◌, refl, subst, sym, Option, none, some, Bool, arith,
}
use jlu_drcom_win.Transport.Failure.{Failure}
use jlu_drcom_win.Tray.System.{Worker, System, wm_worker_done, post}
use jlu_drcom_win.Tray.Window.{choose}
use jlu_drcom_win.Tray.Steps.{
  find, return_in, remove_in, launch, Step, dispatch, receive, choose_command, report, store_error,
  worker_done, begin_refresh, end_refresh, end_toggle, explorer_changes, Reach, launched, later,
}
use jlu_drcom_win.Tray.Invariant.Messages.{handle_menu-Inv, receive-Inv, dispatch-Inv}
use jlu_drcom_win.Tray.Invariant.Workers.{
  return-IsAlone, return-IsWanted, done-IsAlone, done-IsWanted,
}
use jlu_drcom_win.Tray.Invariant.{
  pending, pending-append, closes-append, posted, IsAlone, Inv, on_state-Inv,
}

launch-Inv : (auto_login explorer : Bool) → Inv (launch auto_login explorer)
unfolding launch
launch-Inv auto_login explorer = ground arith

-- The two parts of a worker's end.
pub store-Inv :
    (s : System) (w : Worker) (err : Option Failure)
    → Inv s
    → Inv (record s { workers = return_in w.id s.workers; app = record s.app { worker_err = err } })
store-Inv s w err i = record {
  active = i.active;
  alone = return-IsAlone s.app.cancel s.workers (pending s.queue) w.id i.alone;
  wanted =
      return-IsWanted s.app (record s.app { worker_err = err }) s.workers w.id refl refl refl
        i.wanted;
  served = i.served;
  leaves = i.leaves;
}

pub done-Inv :
    (s : System) (w : Worker)
    → find w.id s.workers ≡ some w
    → Inv s
    → Inv (post wm_worker_done (record s { workers = remove_in w.id s.workers }))
done-Inv s w f i = record {
  active = i.active;
  alone =
      subst (IsAlone s.app.cancel (remove_in w.id s.workers))
        (sym (pending-append s.queue (posted wm_worker_done)))
        (done-IsAlone s.app.cancel s.workers (pending s.queue) w f i.alone);
  wanted = done-IsWanted s.app s.workers w.id i.wanted;
  served = i.served;
  leaves = ground (arith, i.leaves, closes-append s.queue (posted wm_worker_done));
}

closed_menu-Inv : (s : System) → Inv s → Inv (record s { menu = none })
closed_menu-Inv s i = ground arith

module _ (taskbar_created : ℕ)
    (registered : (taskbar_created ≡ 0) ⊎ (0xc000 ≤ taskbar_created)) where
  pub Step-Inv : (s t : System) → Step taskbar_created s t → Inv s → Inv t
  unfolding choose
  Step-Inv s t (dispatch m rest d q e) i =
      subst Inv (sym e) (dispatch-Inv taskbar_created registered m rest s q i)
  Step-Inv s t (receive m a b e) i = subst Inv (sym e) (receive-Inv taskbar_created m s b i)
  Step-Inv s t (choose_command cmd items q e) i =
      subst Inv (sym e)
        (handle_menu-Inv (cmd % 2 ^ 16) (record s { menu = none }) (closed_menu-Inv s i))
  Step-Inv s t (report w state f r e) i = subst Inv (sym e) (on_state-Inv state s i)
  Step-Inv s t (store_error w err f r e) i = subst Inv (sym e) (store-Inv s w err i)
  Step-Inv s t (worker_done w f r e) i = subst Inv (sym e) (done-Inv s w f i)
  Step-Inv s t (begin_refresh tasks q e) i = ground arith
  Step-Inv s t (end_refresh enabled before after q e) i = ground arith
  Step-Inv s t (end_toggle enable ok before after q e) i = ground arith
  Step-Inv s t (explorer_changes present e) i = ground arith

  -- In every reachable state there is at most one worker, and `cancel` belongs to it; a worker that is
  -- not cancelled is there only while a login is wanted and neither a suspension nor an exit; a login
  -- that is wanted, and not suspended, has a worker or its end in the queue; and a request to exit
  -- waits for that end, or has the message to close in the queue, or has closed the window. (The number
  -- that RegisterWindowMessage gives is 0 or at least 0xC000.)
  pub Reach-Inv : {s : System} → Reach taskbar_created s → Inv s
  Reach-Inv (launched auto_login explorer) = launch-Inv auto_login explorer
  Reach-Inv (later {s} {t} r st) = Step-Inv s t st (Reach-Inv r)
