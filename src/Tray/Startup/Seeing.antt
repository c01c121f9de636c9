-- ===== src/Tray/Startup/Seeing.antt =====
-- What the registry and the task scheduler are relied on for, and the rules that follow.
use jlu_drcom_win.Base.{ℕ, ◌≡◌, ◌⊎◌, inl, inr, refl, ap, ◌∙◌, none, Bool, true, false, arith}
use jlu_drcom_win.Protocol.Types.{Bytes}
use jlu_drcom_win.Tray.Startup.{
  Mode, query, enable, disable, other_mode, StartupError, no_executable, no_path, task_failed,
  error_file_not_found, Windows, after_script, after_absolute, after_executable, run_startup_task,
  delete_startup_value, read_startup_value,
}

-- Whether there is a task, and a value under the Run key.
pub record Seen : Type 0 where
  pub task : Bool
  pub value : Bool

-- What the script is to do in each mode.
abbrev pub changed : Mode → Seen → Seen
changed query s = s
changed enable s = record s { task = true }
changed disable s = record s { task = false }
changed (other_mode text) s = s

-- What the code relies on: a script that succeeds has done what its mode says, and one that fails, as
-- it does after twenty seconds, has done that or nothing; RegDeleteValueW removes the value alone,
-- and the error "not found" says that there is none; the other calls change nothing.
pub record Seeing {S : Type 0} (windows : Windows S) : Type 0 where
  pub seen : S → Seen
  pub executable_keeps : (s : S) → seen (windows.executable s).1 ≡ seen s
  pub absolute_keeps : (s : S) → seen (windows.absolute s).1 ≡ seen s
  pub open_keeps : (a : ℕ) (s : S) → seen (windows.reg_open a s).1 ≡ seen s
  pub type_keeps : (k : ℕ) (s : S) → seen (windows.reg_query_type k s).1 ≡ seen s
  pub value_keeps : (k : ℕ) (s : S) → seen (windows.reg_query_value k s).1 ≡ seen s
  pub close_keeps : (k : ℕ) (s : S) → seen (windows.reg_close k s) ≡ seen s
  pub succeeds :
      (mode : Mode) (exe path : Bytes) (s : S) (output : Bytes)
      → (windows.script mode exe path s).0 ≡ inl output
      → seen (windows.script mode exe path s).1 ≡ changed mode (seen s)
  pub fails :
      (mode : Mode) (exe path : Bytes) (s : S) (e : ℕ)
      → (windows.script mode exe path s).0 ≡ inr e
      → (seen (windows.script mode exe path s).1 ≡ seen s)
        ⊎ (seen (windows.script mode exe path s).1 ≡ changed mode (seen s))
  pub absent :
      (a : ℕ) (s : S) → (windows.reg_open a s).0.0 ≡ error_file_not_found → (seen s).value ≡ false
  pub deletes :
      (k : ℕ) (s : S)
      → ((windows.reg_delete k s).0 ≡ 0) ⊎ ((windows.reg_delete k s).0 ≡ error_file_not_found)
      → (seen (windows.reg_delete k s).1).value ≡ false
  pub spares : (k : ℕ) (s : S) → (seen (windows.reg_delete k s).1).task ≡ (seen s).task

module _ {S : Type 0} (windows : Windows S) (seeing : Seeing windows) where
  pub delete-task :
      (s : S) → (seeing.seen (delete_startup_value windows s).1).task ≡ (seeing.seen s).task
  unfolding delete_startup_value
  delete-task s = ground (
    arith,
    seeing.open_keeps 2 s,
    seeing.spares (windows.reg_open 2 s).0.1 (windows.reg_open 2 s).1,
    seeing.close_keeps (windows.reg_open 2 s).0.1
        (windows.reg_delete (windows.reg_open 2 s).0.1 (windows.reg_open 2 s).1).1,
  )

  pub delete-value :
      (s : S)
      → (delete_startup_value windows s).0 ≡ none
      → (seeing.seen (delete_startup_value windows s).1).value ≡ false
  unfolding delete_startup_value
  delete-value s q = ground (
    arith,
    seeing.open_keeps 2 s,
    seeing.absent 2 s,
    seeing.deletes (windows.reg_open 2 s).0.1 (windows.reg_open 2 s).1,
    seeing.close_keeps (windows.reg_open 2 s).0.1
        (windows.reg_delete (windows.reg_open 2 s).0.1 (windows.reg_open 2 s).1).1,
  )

  pub read-seen : (s : S) → seeing.seen (read_startup_value windows s).1 ≡ seeing.seen s
  unfolding read_startup_value
  read-seen s = ground (
    arith,
    seeing.open_keeps 1 s,
    seeing.type_keeps (windows.reg_open 1 s).0.1 (windows.reg_open 1 s).1,
    seeing.value_keeps (windows.reg_open 1 s).0.1
        (windows.reg_query_type (windows.reg_open 1 s).0.1 (windows.reg_open 1 s).1).1,
    seeing.close_keeps (windows.reg_open 1 s).0.1
        (windows.reg_query_type (windows.reg_open 1 s).0.1 (windows.reg_open 1 s).1).1,
    seeing.close_keeps (windows.reg_open 1 s).0.1
        (windows.reg_query_value (windows.reg_open 1 s).0.1
          (windows.reg_query_type (windows.reg_open 1 s).0.1 (windows.reg_open 1 s).1).1).1,
  )

  -- The task is as before, or as the mode says.
  abbrev pub IsTried : Mode → S → S → Type 0
  IsTried mode s t =
      (seeing.seen t ≡ seeing.seen s) ⊎ (seeing.seen t ≡ changed mode (seeing.seen s))

  tried :
      (mode : Mode) (s u t : S)
      → seeing.seen u ≡ seeing.seen s
      → IsTried mode u t
      → IsTried mode s t
  tried mode s u t k (inl e) = inl (e ∙ k)
  tried mode s u t k (inr e) = inr (e ∙ ap (changed mode) k)

  -- The rule of runStartupTask: it fails, or the script has succeeded.
  module _ (mode : Mode) (Q : (Bytes ⊎ StartupError) × S → Type 0) (s : S)
      (failing : (e : StartupError) (t : S) → IsTried mode s t → Q (inr e, t))
      (succeeding : (output : Bytes) (t : S)
        → seeing.seen t ≡ changed mode (seeing.seen s)
        → Q (inl output, t)) where
    script_rule :
        (exe path : Bytes) (u : S)
        → seeing.seen u ≡ seeing.seen s
        → (r : Bytes ⊎ ℕ) → (windows.script mode exe path u).0 ≡ r
        → Q (after_script windows (r, (windows.script mode exe path u).1))
    script_rule exe path u k (inl output) e =
        succeeding (windows.trim output) (windows.script mode exe path u).1
          (seeing.succeeds mode exe path u output e ∙ ap (changed mode) k)
    script_rule exe path u k (inr n) e =
        failing (task_failed n) (windows.script mode exe path u).1
          (tried mode s u (windows.script mode exe path u).1 k (seeing.fails mode exe path u n e))

    absolute_rule :
        (exe : Bytes) (r : (Bytes ⊎ ℕ) × S)
        → seeing.seen r.1 ≡ seeing.seen s
        → Q (after_absolute windows mode exe r)
    absolute_rule exe (inr n, u) k = failing (no_path n) u (inl k)
    absolute_rule exe (inl path, u) k =
        script_rule exe path u k (windows.script mode exe path u).0 refl

    executable_rule :
        (r : (Bytes ⊎ ℕ) × S)
        → seeing.seen r.1 ≡ seeing.seen s
        → Q (after_executable windows mode r)
    executable_rule (inr n, u) k = failing (no_executable n) u (inl k)
    executable_rule (inl exe, u) k =
        absolute_rule exe (windows.absolute u) (seeing.absolute_keeps u ∙ k)

    pub task_rule : Q (run_startup_task windows mode s)
    unfolding run_startup_task
    task_rule = executable_rule (windows.executable s) (seeing.executable_keeps s)
