-- ===== src/Tray/Startup.antt =====
-- internal/trayapp/startup_windows.go and refreshStartup: the task that starts the program at logon,
-- and the older value under the Run key of the registry.
pub mod Seeing
pub mod Migration
use jlu_drcom_win.Base.{
  ℕ, ◌==◌, ◌⊎◌, inl, inr, Option, none, some, Bool, true, false, not, ◌&&◌, ◌||◌, if◌then◌else◌,
  List, [], ◌∷◌, length,
}
use jlu_drcom_win.Protocol.Types.{Bytes}
use jlu_drcom_win.Config.Validate.{same_bytes}

-- The modes of the script; `other_mode` stands for any other text.
pub data Mode : Type 0 where
  query enable disable : Mode
  other_mode : Bytes → Mode

pub data StartupError : Type 0 where
  bad_mode unexpected_type : StartupError
  no_executable no_path task_failed errno : ℕ → StartupError

abbrev pub error_file_not_found : ℕ
error_file_not_found = 2

abbrev key_query_value : ℕ
key_query_value = 1

abbrev key_set_value : ℕ
key_set_value = 2

abbrev reg_sz : ℕ
reg_sz = 1

-- os.Executable; filepath.Abs of the path of the settings; the script, with its mode, its program and
-- its argument; RegOpenKeyExW, with the access; RegQueryValueExW, for the type and the size and then
-- for the value; RegDeleteValueW; RegCloseKey; strings.TrimSpace and syscall.UTF16ToString. The first
-- number of a Reg function's result is its error, or 0.
pub record Windows (S : Type 0) : Type 0 where
  pub executable : S → (Bytes ⊎ ℕ) × S
  pub absolute : S → (Bytes ⊎ ℕ) × S
  pub script : Mode → Bytes → Bytes → S → (Bytes ⊎ ℕ) × S
  pub reg_open : ℕ → S → (ℕ × ℕ) × S
  pub reg_query_type : ℕ → S → (ℕ × (ℕ × ℕ)) × S
  pub reg_query_value : ℕ → S → (ℕ × List ℕ) × S
  pub reg_delete : ℕ → S → ℕ × S
  pub reg_close : ℕ → S → S
  pub trim : Bytes → Bytes
  pub utf16_to_string : List ℕ → Bytes

-- value == "enabled"
abbrev pub says_enabled : Bytes ⊎ StartupError → Bool
says_enabled (inl value) = same_bytes value (0x65 ∷ 0x6e ∷ 0x61 ∷ 0x62 ∷ 0x6c ∷ 0x65 ∷ 0x64 ∷ [])
says_enabled (inr e) = false

abbrev pub configured :
    {S : Type 0} → Bool → Option StartupError × S → (Bool × Option StartupError) × S
configured enabled (e, s) = ((enabled, e), s)

module _ {S : Type 0} (windows : Windows S) where
  -- runStartupTask
  abbrev pub after_script : (Bytes ⊎ ℕ) × S → (Bytes ⊎ StartupError) × S
  after_script (inl output, s) = (inl (windows.trim output), s)
  after_script (inr e, s) = (inr (task_failed e), s)

  abbrev pub after_absolute : Mode → Bytes → (Bytes ⊎ ℕ) × S → (Bytes ⊎ StartupError) × S
  after_absolute mode exe (inr e, s) = (inr (no_path e), s)
  after_absolute mode exe (inl path, s) = after_script (windows.script mode exe path s)

  abbrev pub after_executable : Mode → (Bytes ⊎ ℕ) × S → (Bytes ⊎ StartupError) × S
  after_executable mode (inr e, s) = (inr (no_executable e), s)
  after_executable mode (inl exe, s) = after_absolute mode exe (windows.absolute s)

  unfoldable pub run_startup_task : Mode → S → (Bytes ⊎ StartupError) × S
  run_startup_task mode s = after_executable mode (windows.executable s)

  -- openKey
  abbrev pub opened_key : (ℕ × ℕ) × S → (ℕ ⊎ ℕ) × S
  opened_key ((r, key), s) = if r == 0 then (inl key, s) else (inr r, s)

  abbrev pub open_key : ℕ → S → (ℕ ⊎ ℕ) × S
  open_key access s = opened_key (windows.reg_open access s)

  -- deleteStartupValue
  abbrev pub after_delete : ℕ → ℕ × S → Option StartupError × S
  after_delete key (r, s) =
      if (r == 0) || (r == error_file_not_found)
      then (none, windows.reg_close key s)
      else (some (errno r), windows.reg_close key s)

  abbrev pub delete_opened : (ℕ ⊎ ℕ) × S → Option StartupError × S
  delete_opened (inr e, s) = if e == error_file_not_found then (none, s) else (some (errno e), s)
  delete_opened (inl key, s) = after_delete key (windows.reg_delete key s)

  unfoldable pub delete_startup_value : S → Option StartupError × S
  delete_startup_value s = delete_opened (open_key key_set_value s)

  -- readStartupValue
  abbrev pub after_value : ℕ → (ℕ × List ℕ) × S → (Bytes ⊎ StartupError) × S
  after_value key ((r, units), s) =
      if r == 0
      then (inl (windows.utf16_to_string units), windows.reg_close key s)
      else (inr (errno r), windows.reg_close key s)

  abbrev pub after_type : ℕ → (ℕ × (ℕ × ℕ)) × S → (Bytes ⊎ StartupError) × S
  after_type key ((r, (type, size)), s) =
      if not (r == 0)
      then (inr (errno r), windows.reg_close key s)
      else if not (type == reg_sz) || (size == 0)
      then (inr unexpected_type, windows.reg_close key s)
      else after_value key (windows.reg_query_value key s)

  abbrev pub read_opened : (ℕ ⊎ ℕ) × S → (Bytes ⊎ StartupError) × S
  read_opened (inr e, s) = (inr (errno e), s)
  read_opened (inl key, s) = after_type key (windows.reg_query_type key s)

  unfoldable pub read_startup_value : S → (Bytes ⊎ StartupError) × S
  read_startup_value s = read_opened (open_key key_query_value s)

  -- legacyStartupEnabled
  abbrev pub is_enabled : (Bytes ⊎ StartupError) × S → Bool × S
  is_enabled (inl value, s) = (not (length (windows.trim value) == 0), s)
  is_enabled (inr e, s) = (false, s)

  unfoldable pub legacy_startup_enabled : S → Bool × S
  legacy_startup_enabled s = is_enabled (read_startup_value s)

  -- ConfigureStartup
  abbrev pub after_task : (Bytes ⊎ StartupError) × S → Option StartupError × S
  after_task (inr e, s) = (some e, s)
  after_task (inl output, s) = delete_startup_value s

  unfoldable pub configure_startup : Mode → S → Option StartupError × S
  configure_startup query s = (some bad_mode, s)
  configure_startup (other_mode text) s = (some bad_mode, s)
  configure_startup enable s = after_task (run_startup_task enable s)
  configure_startup disable s = after_task (run_startup_task disable s)

  -- err == nil && legacyStartupEnabled()
  abbrev pub after_second_look : Bool → Bool × S → (Bool × Option StartupError) × S
  after_second_look enabled (legacy, s) =
      if legacy then configured enabled (configure_startup enable s) else ((enabled, none), s)

  abbrev pub migrate : Bytes ⊎ StartupError → Bool × S → (Bool × Option StartupError) × S
  migrate (inr e) (enabled, s) = ((enabled, some e), s)
  migrate (inl value) (enabled, s) = after_second_look enabled (legacy_startup_enabled s)

  -- value == "enabled" || legacyStartupEnabled()
  abbrev pub first_look : Bool → S → Bool × S
  first_look true s = (true, s)
  first_look false s = legacy_startup_enabled s

  abbrev pub after_query : (Bytes ⊎ StartupError) × S → (Bool × Option StartupError) × S
  after_query (r, s) = migrate r (first_look (says_enabled r) s)

  -- refreshStartup: what it stores in `startup`, and the error it logs.
  unfoldable pub refresh_startup : S → (Bool × Option StartupError) × S
  refresh_startup s = after_query (run_startup_task query s)
