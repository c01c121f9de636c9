-- ===== src/Tray/Leaving.antt =====
-- A request to exit leads to the end of the application.
use jlu_drcom_win.Base.{
  ℕ, zero, suc, ◌≤◌, ◌<◌, ◌≡◌, ◌⊎◌, inl, inr, refl, subst, true, false, arith, Option, none, some,
  List, [], ◌∷◌, ◌++◌, All, Bool-cases,
}
use jlu_drcom_win.Transport.Failure.{Failure}
use jlu_drcom_win.Tray.System.{Worker, System, Message, post, wm_worker_done}
use jlu_drcom_win.Tray.Client.{running}
use jlu_drcom_win.Tray.Window.{window_proc}
use jlu_drcom_win.Tray.Steps.{find, return_in, remove_in, Reach}
use jlu_drcom_win.Tray.Invariant.{posted, pending, closes, IsAlone, Inv}
use jlu_drcom_win.Tray.Invariant.Messages.{dispatch-Inv}
use jlu_drcom_win.Tray.Ours.{IsOurs, HasOurs, All-post, Reach-HasOurs}
use jlu_drcom_win.Tray.Next.{weight, IsIdle, dispatch-IsNext}
use jlu_drcom_win.Tray.Reached.{store-Inv, done-Inv, Reach-Inv}

-- What happens to a state if only the queue is handled and the worker comes to its end, whatever
-- that end is: the window is destroyed, and the message loop is to end.
pub data Leads (taskbar_created : ℕ) : System → Type 0 where
  gone : {s : System} → s.destroyed ≡ true → s.quit ≡ true → Leads taskbar_created s
  handles :
      {s : System} (m : Message) (rest : List Message)
      → s.queue ≡ m ∷ rest
      → Leads taskbar_created (window_proc taskbar_created m (record s { queue = rest })).0
      → Leads taskbar_created s
  returns :
      {s : System} (w : Worker)
      → find w.id s.workers ≡ some w
      → w.returned ≡ false
      → ((err : Option Failure)
          → Leads taskbar_created (record s {
            workers = return_in w.id s.workers;
            app = record s.app { worker_err = err };
          }))
      → Leads taskbar_created s
  ends :
      {s : System} (w : Worker)
      → find w.id s.workers ≡ some w
      → w.returned ≡ true
      → Leads taskbar_created
          (post wm_worker_done (record s { workers = remove_in w.id s.workers }))
      → Leads taskbar_created s

empty_cases :
    (cancel : Option ℕ) (ws : List Worker) (q : List Message) (s : System)
    → IsAlone cancel ws (pending q)
    → ws ≡ []
    → (s.app.exiting ≡ false) ⊎ (running cancel ≡ true) ⊎ (closes q ≡ true) ⊎ (s.destroyed ≡ true)
    → q ≡ []
    → s.app.exiting ≡ true
    → s.destroyed ≡ false
    → ⊥
empty_cases none ws q s h e l n x d = ground arith
empty_cases (some k) [] q s h e l n x d = ground arith
empty_cases (some k) (w ∷ ws) q s h e l n x d = ground arith

two_workers :
    (cancel : Option ℕ) (w u : Worker) (ws : List Worker) (n : ℕ)
    → IsAlone cancel (w ∷ u ∷ ws) n
    → ⊥
two_workers none w u ws n h = h
two_workers (some k) w u ws n h = h

module _ (taskbar_created : ℕ)
    (registered : (taskbar_created ≡ 0) ⊎ (0xc000 ≤ taskbar_created)) where
  -- The end of the worker is still in the queue, or the message to close.
  queue-nonempty : (s : System) → Inv s → IsIdle s → s.queue ≡ [] → ⊥
  queue-nonempty s v i q =
      empty_cases s.app.cancel s.workers s.queue s v.alone i.workers v.leaves q i.exiting i.present

  drain :
      (n : ℕ) (q : List Message) (s : System)
      → s.queue ≡ q
      → weight q < n
      → Inv s
      → HasOurs s
      → IsIdle s
      → Leads taskbar_created s
  drain zero q s e l v o i = absurd (omega (arith, l))
  drain (suc n) [] s e l v o i = absurd (queue-nonempty s v i e)
  drain (suc n) (m ∷ rest) s e l v o i =
      handles m rest e
        (elim (dispatch-IsNext taskbar_created registered s m rest n (omega (arith, l))
          (subst (All IsOurs) e o.ours).0 (subst (All IsOurs) e o.ours).1 v.active i) [
            | inl x ↦
                drain n (window_proc taskbar_created m (record s { queue = rest })).0.queue
                  (window_proc taskbar_created m (record s { queue = rest })).0 refl x.less
                  (dispatch-Inv taskbar_created registered m rest s e v) x.ours x.idle
            | inr g ↦ gone g.destroyed g.quit
          ])

  -- With the worker, in each state of its end.
  from_ended :
      (s : System) (w : Worker)
      → s.workers ≡ w ∷ []
      → w.returned ≡ true
      → Inv s
      → HasOurs s
      → s.app.exiting ≡ true
      → s.destroyed ≡ false
      → Leads taskbar_created s
  from_ended s w e r v o x d = ends w (ground arith) r (
      drain (suc (weight (s.queue ++ posted wm_worker_done ∷ []))) _
        (post wm_worker_done (record s { workers = remove_in w.id s.workers })) refl (omega arith)
        (done-Inv s w (ground arith) v)
        (record { ours = All-post s.queue (posted wm_worker_done) o.ours (inr (inl refl)) })
        (record { exiting = x; workers = ground arith; present = d }))

  from_running :
      (s : System) (w : Worker)
      → s.workers ≡ w ∷ []
      → w.returned ≡ false
      → Inv s
      → HasOurs s
      → s.app.exiting ≡ true
      → s.destroyed ≡ false
      → Leads taskbar_created s
  from_running s w e r v o x d = returns w (ground arith) r (λ err.
      from_ended
        (record s { workers = return_in w.id s.workers; app = record s.app { worker_err = err } })
        (record w { returned = true }) (ground arith) refl (store-Inv s w err v)
        (record { ours = o.ours }) x d)

  at_workers :
      (ws : List Worker) (s : System)
      → s.workers ≡ ws
      → IsAlone s.app.cancel ws (pending s.queue)
      → Inv s
      → HasOurs s
      → s.app.exiting ≡ true
      → s.destroyed ≡ false
      → Leads taskbar_created s
  at_workers [] s e h v o x d =
      drain (suc (weight s.queue)) s.queue s refl (omega arith) v o
        (record { exiting = x; workers = e; present = d })
  at_workers (w ∷ []) s e h v o x d = elim (Bool-cases w.returned) [
    | inl r ↦ from_ended s w e r v o x d
    | inr r ↦ from_running s w e r v o x d
  ]
  at_workers (w ∷ u ∷ ws) s e h v o x d =
      absurd (two_workers s.app.cancel w u ws (pending s.queue) h)

  -- From every reachable state with a request to exit and a window, the end of the worker with any
  -- error and the handling of the messages in the queue alone lead to the end: the window is
  -- destroyed and the loop told to quit. (The number that RegisterWindowMessage gives is 0 or at
  -- least 0xC000.)
  pub exiting-Leads :
      (s : System)
      → Reach taskbar_created s
      → s.app.exiting ≡ true
      → s.destroyed ≡ false
      → Leads taskbar_created s
  exiting-Leads s r x d =
      at_workers s.workers s refl (Reach-Inv taskbar_created registered r).alone
        (Reach-Inv taskbar_created registered r) (Reach-HasOurs taskbar_created r) x d
