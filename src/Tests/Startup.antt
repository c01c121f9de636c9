-- ===== src/Tests/Startup.antt =====
-- The startup entry on a computer that still has the old value.
use jlu_drcom_win.Base.{ℕ, ◌≡◌, ◌⊎◌, inl, inr, refl, true, false, [], ◌∷◌, arith, if◌then◌else◌}
use jlu_drcom_win.Protocol.Types.{Bytes}
use jlu_drcom_win.Tray.Startup.{
  Mode, query, enable, disable, other_mode, Windows, configure_startup, refresh_startup,
  error_file_not_found,
}
use jlu_drcom_win.Tray.Startup.Seeing.{Seen, changed, Seeing}
use jlu_drcom_win.Tray.Startup.Migration.{
  Starts, IsConfigured, configure_startup-IsConfigured, refresh_startup-Starts,
}

abbrev run : Mode → Seen → (Bytes ⊎ ℕ) × Seen
run query s = (inl [], s)
run enable s = (inl [], record { task = true; value = s.value })
run disable s = (inl [], record { task = false; value = s.value })
run (other_mode text) s = (inr 1, s)

abbrev windows : Windows Seen
windows = record {
  executable = λ s. (inl [], s);
  absolute = λ s. (inl [], s);
  script = λ mode exe path s. run mode s;
  reg_open = λ access s. ((if s.value then 0 else 2, 7), s);
  reg_query_type = λ key s. ((0, (1, 2)), s);
  reg_query_value = λ key s. ((0, 65 ∷ []), s);
  reg_delete = λ key s. (0, record { task = s.task; value = false });
  reg_close = λ key s. s;
  trim = λ b. b;
  utf16_to_string = λ b. b;
}

failed_run : (mode : Mode) (s : Seen) (e : ℕ) → (run mode s).0 ≡ inr e → (run mode s).1 ≡ s
failed_run query s e q = ground (arith, q)
failed_run enable s e q = ground (arith, q)
failed_run disable s e q = ground (arith, q)
failed_run (other_mode text) s e q = refl

done_run :
    (mode : Mode) (s : Seen) (output : Bytes)
    → (run mode s).0 ≡ inl output
    → (run mode s).1 ≡ changed mode s
done_run query s output q = refl
done_run enable s output q = refl
done_run disable s output q = refl
done_run (other_mode text) s output q = refl

not_found : (s : Seen) → (windows.reg_open 0 s).0.0 ≡ error_file_not_found → s.value ≡ false
not_found s q = ground (arith, q)

seeing : Seeing windows
seeing = record {
  seen = λ s. s;
  executable_keeps = λ s. refl;
  absolute_keeps = λ s. refl;
  open_keeps = λ a s. refl;
  type_keeps = λ k s. refl;
  value_keeps = λ k s. refl;
  close_keeps = λ k s. refl;
  fails = λ mode exe path s e q. inl (failed_run mode s e q);
  succeeds = λ mode exe path s output q. done_run mode s output q;
  absent = λ a s q. not_found s q;
  deletes = λ k s q. refl;
  spares = λ k s. refl;
}

abbrev old_value : Seen
old_value = record { task = false; value = true }

configure_startup-IsConfigured_example :
    IsConfigured windows seeing true old_value (configure_startup windows enable old_value)
    × IsConfigured windows seeing false old_value (configure_startup windows disable old_value)
configure_startup-IsConfigured_example = configure_startup-IsConfigured windows seeing old_value

starts : Starts windows seeing old_value
unfolding seeing
starts = inr refl

refresh_startup-Starts_example : Starts windows seeing (refresh_startup windows old_value).1
refresh_startup-Starts_example = refresh_startup-Starts windows seeing old_value starts
