-- ===== src/Tray/Startup/Migration.antt =====
-- What the operations on the startup entry leave in the task scheduler and in the registry.
use jlu_drcom_win.Base.{
  ◌≡◌, ◌⊎◌, inl, inr, refl, ap, ◌∙◌, Option, none, some, Bool, true, false, arith,
}
use jlu_drcom_win.Protocol.Types.{Bytes}
use jlu_drcom_win.Tray.Startup.{
  query, enable, disable, StartupError, is_enabled, Windows, delete_startup_value,
  read_startup_value, legacy_startup_enabled, after_task, configure_startup, configured,
  after_second_look, migrate, first_look, after_query, refresh_startup, says_enabled,
}
use jlu_drcom_win.Tray.Startup.Seeing.{
  IsTried, Seeing, delete-task, delete-value, read-seen, task_rule,
}

module _ {S : Type 0} (windows : Windows S) (seeing : Seeing windows) where
  -- Without an error, the task is as the mode says and the old value is gone; with one, the task is
  -- as the mode says, or nothing has changed.
  abbrev pub IsConfigured : Bool → S → Option StartupError × S → Type 0
  IsConfigured task s (none, t) = seeing.seen t ≡ record { task = task; value = false }
  IsConfigured task s (some e, t) = ((seeing.seen t).task ≡ task) ⊎ (seeing.seen t ≡ seeing.seen s)

  deleted-IsConfigured :
      (task : Bool) (s : S) (t : S)
      → (seeing.seen t).task ≡ task
      → IsConfigured task s (delete_startup_value windows t)
  deleted-IsConfigured task s t k =
      at_delete (delete_startup_value windows t) (delete-task windows seeing t ∙ k)
        (delete-value windows seeing t)
    where
      at_delete :
          (r : Option StartupError × S)
          → (seeing.seen r.1).task ≡ task
          → (r.0 ≡ none → (seeing.seen r.1).value ≡ false)
          → IsConfigured task s r
      at_delete (none, u) a b = ground (arith, b refl)
      at_delete (some e, u) a b = inl a

  tried-IsConfigured :
      (task : Bool) (s t : S) (e : StartupError)
      → (seeing.seen t ≡ seeing.seen s)
        ⊎ (seeing.seen t ≡ record { task = task; value = (seeing.seen s).value })
      → IsConfigured task s (some e, t)
  tried-IsConfigured task s t e (inl k) = inr k
  tried-IsConfigured task s t e (inr k) = inl (ap (λ x. x.task) k)

  -- ConfigureStartup with the mode "enable" or "disable": without an error, there is a task exactly in
  -- the mode "enable", and no value under the Run key; with an error, nothing has changed, or the task
  -- is as the mode says.
  pub configure_startup-IsConfigured :
      (s : S)
      → IsConfigured true s (configure_startup windows enable s)
        × IsConfigured false s (configure_startup windows disable s)
  unfolding configure_startup
  configure_startup-IsConfigured s = (
    task_rule windows seeing enable (λ r. IsConfigured true s (after_task windows r)) s
        (λ e t k. tried-IsConfigured true s t e k)
        (λ output t e. deleted-IsConfigured true s t (ap (λ x. x.task) e)),
    task_rule windows seeing disable (λ r. IsConfigured false s (after_task windows r)) s
        (λ e t k. tried-IsConfigured false s t e k)
        (λ output t e. deleted-IsConfigured false s t (ap (λ x. x.task) e)),
  )

  -- The program starts with Windows.
  abbrev pub Starts : S → Type 0
  Starts s = ((seeing.seen s).task ≡ true) ⊎ ((seeing.seen s).value ≡ true)

  seen-Starts : (s t : S) → seeing.seen t ≡ seeing.seen s → Starts s → Starts t
  seen-Starts s t e h = ground arith

  queried-Starts : (s t : S) → IsTried windows seeing query s t → Starts s → Starts t
  queried-Starts s t (inl e) h = seen-Starts s t e h
  queried-Starts s t (inr e) h = seen-Starts s t e h

  enabled-Starts :
      (s : S) (r : Option StartupError × S) → IsConfigured true s r → Starts s → Starts r.1
  enabled-Starts s (none, t) c h = ground arith
  enabled-Starts s (some e, t) (inl c) h = inl c
  enabled-Starts s (some e, t) (inr c) h = seen-Starts s t c h

  look-Starts : (s : S) → Starts s → Starts (legacy_startup_enabled windows s).1
  unfolding legacy_startup_enabled
  look-Starts s h =
      at_read (read_startup_value windows s)
        (seen-Starts s (read_startup_value windows s).1 (read-seen windows seeing s) h)
    where
      at_read : (r : (Bytes ⊎ StartupError) × S) → Starts r.1 → Starts (is_enabled windows r).1
      at_read (inl v, t) k = k
      at_read (inr e, t) k = k

  second-Starts :
      (enabled : Bool) (r : Bool × S) → Starts r.1 → Starts (after_second_look windows enabled r).1
  second-Starts enabled (false, s) h = h
  second-Starts enabled (true, s) h =
      at_configured (configure_startup windows enable s) (
        enabled-Starts s (configure_startup windows enable s) (configure_startup-IsConfigured s).0
          h)
    where
      at_configured : (r : Option StartupError × S) → Starts r.1 → Starts (configured enabled r).1
      at_configured (e, t) k = k

  migrate-Starts :
      (q : Bytes ⊎ StartupError) (r : Bool × S) → Starts r.1 → Starts (migrate windows q r).1
  migrate-Starts (inr e) (enabled, s) h = h
  migrate-Starts (inl v) (enabled, s) h =
      second-Starts enabled (legacy_startup_enabled windows s) (look-Starts s h)

  first-Starts : (b : Bool) (s : S) → Starts s → Starts (first_look windows b s).1
  first-Starts true s h = h
  first-Starts false s h = look-Starts s h

  -- The refresh of the entry, which moves the old value to a task, never loses the start of the
  -- program with Windows: where there was a task or a value there is one, whichever calls fail.
  pub refresh_startup-Starts : (s : S) → Starts s → Starts (refresh_startup windows s).1
  unfolding refresh_startup
  refresh_startup-Starts s h =
      task_rule windows seeing query (λ r. Starts (after_query windows r).1) s
        (λ e t k.
          migrate-Starts (inr e) (first_look windows false t)
            (first-Starts false t (queried-Starts s t k h)))
        (λ output t k.
          migrate-Starts (inl output) (first_look windows (says_enabled (inl output)) t)
            (first-Starts (says_enabled (inl output)) t (seen-Starts s t k h)))
