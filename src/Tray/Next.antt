-- ===== src/Tray/Next.antt =====
-- What a message does to an application that is to exit and has no worker left.
use jlu_drcom_win.Base.{
  ℕ, suc, ◌+◌, ◌≤◌, ◌<◌, ◌≡◌, ◌⊎◌, inl, inr, subst, sym, true, false, arith, List, [], ◌∷◌, ◌++◌,
  All, if◌then◌else◌, ◌==◌,
}
use jlu_drcom_win.Tray.System.{System, Message, modify_tip, wm_worker_done, wm_close}
use jlu_drcom_win.Tray.Client.{runner_done, request_exit, running}
use jlu_drcom_win.Tray.Window.{on_destroy, on_close, window_proc}
use jlu_drcom_win.Tray.Invariant.{posted}
use jlu_drcom_win.Tray.Invariant.Messages.{proc-status, proc-done, proc-close}
use jlu_drcom_win.Tray.Ours.{IsOurs, HasOurs, runner_done-HasOurs}

abbrev pub weight : List Message → ℕ
weight [] = 0
weight (m ∷ ms) = (if m.code == wm_worker_done then 2 else 1) + weight ms

weight-post :
    (ms : List Message) (code : ℕ)
    → weight (ms ++ posted code ∷ []) ≡ weight ms + (if code == wm_worker_done then 2 else 1)
weight-post [] code = omega arith
weight-post (x ∷ ms) code = omega (arith, weight-post ms code)

-- No worker is left.
pub record IsIdle (s : System) : Type 0 where
  pub exiting : s.app.exiting ≡ true
  pub workers : s.workers ≡ []
  pub present : s.destroyed ≡ false

-- After a message: less to do, or nothing.
pub record IsNext (n : ℕ) (t : System) : Type 0 where
  pub idle : IsIdle t
  pub ours : HasOurs t
  pub less : weight t.queue < n

pub record IsGone (t : System) : Type 0 where
  pub destroyed : t.destroyed ≡ true
  pub quit : t.quit ≡ true

status-IsNext :
    (s : System) (rest : List Message) (n : ℕ)
    → weight rest < n
    → All IsOurs rest
    → IsIdle s
    → IsNext n (modify_tip (record s { queue = rest }))
status-IsNext s rest n l o i = record {
  idle = record { exiting = i.exiting; workers = i.workers; present = i.present };
  ours = record { ours = o };
  less = l;
}

done-IsIdle :
    (s : System) (rest : List Message) → IsIdle s → IsIdle (runner_done (record s { queue = rest }))
unfolding runner_done
done-IsIdle s rest i = ground arith

done-less :
    (s : System) (rest : List Message)
    → s.app.exiting ≡ true
    → weight (runner_done (record s { queue = rest })).queue ≡ suc (weight rest)
unfolding runner_done
done-less s rest x = ground (arith, weight-post rest wm_close)

done-IsNext :
    (s : System) (rest : List Message) (n : ℕ)
    → suc (weight rest) < n
    → All IsOurs rest
    → IsIdle s
    → IsNext n (runner_done (record s { queue = rest }))
done-IsNext s rest n l o i = record {
  idle = done-IsIdle s rest i;
  ours = runner_done-HasOurs (record s { queue = rest }) (record { ours = o });
  less = omega (arith, done-less s rest i.exiting);
}

close_idle_cases :
    (s : System) (rest : List Message)
    → s.active ≡ true
    → IsIdle s
    → ((on_close (record s { queue = rest }) ≡ record s { queue = rest })
        × (running s.app.cancel ≡ true))
      ⊎ IsGone (on_close (record s { queue = rest }))
unfolding on_close on_destroy request_exit
close_idle_cases s rest a i = ground arith

close-IsNext :
    (s : System) (rest : List Message) (n : ℕ)
    → weight rest < n
    → All IsOurs rest
    → s.active ≡ true
    → IsIdle s
    → IsNext n (on_close (record s { queue = rest }))
      ⊎ IsGone (on_close (record s { queue = rest }))
close-IsNext s rest n l o a i = elim (close_idle_cases s rest a i) [
  | inl e ↦ inl (subst (IsNext n) (sym e.0) (status_kept s rest n l o i))
  | inr g ↦ inr g
]
  where
    status_kept :
        (s : System) (rest : List Message) (n : ℕ)
        → weight rest < n
        → All IsOurs rest
        → IsIdle s
        → IsNext n (record s { queue = rest })
    status_kept s rest n l o i = record {
      idle = record { exiting = i.exiting; workers = i.workers; present = i.present };
      ours = record { ours = o };
      less = l;
    }

module _ (taskbar_created : ℕ)
    (registered : (taskbar_created ≡ 0) ⊎ (0xc000 ≤ taskbar_created)) where
  pub dispatch-IsNext :
      (s : System) (m : Message) (rest : List Message) (n : ℕ)
      → weight (m ∷ rest) ≤ n
      → IsOurs m
      → All IsOurs rest
      → s.active ≡ true
      → IsIdle s
      → IsNext n (window_proc taskbar_created m (record s { queue = rest })).0
        ⊎ IsGone (window_proc taskbar_created m (record s { queue = rest })).0
  dispatch-IsNext s m rest n l (inl c) o a i = inl (
      subst (IsNext n)
        (sym (proc-status taskbar_created registered m (record s { queue = rest }) c a))
        (status-IsNext s rest n (ground arith) o i))
  dispatch-IsNext s m rest n l (inr (inl c)) o a i = inl (
      subst (IsNext n)
        (sym (proc-done taskbar_created registered m (record s { queue = rest }) c a))
        (done-IsNext s rest n (ground arith) o i))
  dispatch-IsNext s m rest n l (inr (inr c)) o a i =
      subst (λ t. IsNext n t ⊎ IsGone t)
        (sym (proc-close taskbar_created registered m (record s { queue = rest }) c))
        (close-IsNext s rest n (ground arith) o a i)
