-- ===== src/Logging.antt =====
-- internal/logging/logging.go: the log file that is rotated at a size limit. The file system is a
-- parameter; its operations act on a state of the disk.
pub mod Writes
pub mod Kept
pub mod Lost
use jlu_drcom_win.Base.{
  ℕ, ◌+◌, ◌-◌, ◌*◌, ◌%◌, ◌^◌, ℤ, pos, negsuc, ltb, ltb_ℤ, Option, none, some, Bool, true, false,
  ◌&&◌, if◌then◌else◌, List, [], ◌∷◌, ◌++◌, length,
}
use jlu_drcom_win.Protocol.Types.{Bytes}

abbrev pub max_log_bytes : ℤ
max_log_bytes = pos (4 * 1024 * 1024)

-- The sum of two int64, the second of which is not negative.
abbrev pub to_int64 : ℕ → ℤ
to_int64 n =
    if ltb (n % 2 ^ 64) (2 ^ 63) then pos (n % 2 ^ 64) else negsuc (2 ^ 64 - n % 2 ^ 64 - 1)

abbrev pub add64 : ℤ → ℕ → ℤ
add64 (pos a) n = to_int64 (a + n)
add64 (negsuc a) n = if ltb a n then to_int64 (n - a - 1) else negsuc (a - n)

pub data Reply (E A : Type 0) : Type 0 where
  got : A → Reply E A
  refused : E → Reply E A

-- The package os, with handles H and errors E: MkdirAll of filepath.Dir, OpenFile with O_CREATE and
-- O_APPEND, Stat, Close, Remove, Rename, Write; ErrClosed and IsNotExist.
pub record Disk (H E S : Type 0) : Type 0 where
  pub make_parents : Bytes → S → Option E × S
  pub open_file : Bytes → S → Reply E H × S
  pub stat_size : H → S → Reply E ℕ × S
  pub close_file : H → S → Option E × S
  pub remove : Bytes → S → Option E × S
  pub rename : Bytes → Bytes → S → Option E × S
  pub write_file : H → Bytes → S → (ℕ × Option E) × S
  pub err_closed : E
  pub is_not_exist : E → Bool

pub record RotatingWriter (H : Type 0) : Type 0 where
  pub path : Bytes
  pub limit : ℤ
  pub file : Option H
  pub size : ℤ

-- path + ".old"
abbrev pub old_path : Bytes → Bytes
old_path path = path ++ 46 ∷ 111 ∷ 108 ∷ 100 ∷ []

-- What Write returns, and what it leaves.
pub record Written (H E S : Type 0) : Type 0 where
  pub count : ℕ
  pub error : Option E
  pub writer : RotatingWriter H
  pub disk : S

-- w.size > 0 && w.size+int64(len(p)) > w.limit
abbrev pub is_full : {H : Type 0} → Bytes → RotatingWriter H → Bool
is_full p w = ltb_ℤ (pos 0) w.size && ltb_ℤ w.limit (add64 w.size (length p))

module _ {H E S : Type 0} (os : Disk H E S) where
  -- Open
  abbrev pub after_stat : Bytes → ℤ → H → Reply E ℕ × S → Reply E (RotatingWriter H) × S
  after_stat path limit h (refused e, s) = (refused e, (os.close_file h s).1)
  after_stat path limit h (got n, s) =
      (got (record { path = path; limit = limit; file = some h; size = to_int64 n }), s)

  abbrev pub after_create : Bytes → ℤ → Reply E H × S → Reply E (RotatingWriter H) × S
  after_create path limit (refused e, s) = (refused e, s)
  after_create path limit (got h, s) = after_stat path limit h (os.stat_size h s)

  abbrev pub after_parents : Bytes → ℤ → Option E × S → Reply E (RotatingWriter H) × S
  after_parents path limit (some e, s) = (refused e, s)
  after_parents path limit (none, s) = after_create path limit (os.open_file path s)

  unfoldable pub open_writer : Bytes → ℤ → S → Reply E (RotatingWriter H) × S
  open_writer path limit s = after_parents path limit (os.make_parents path s)

  -- Write
  abbrev pub refuse : E → RotatingWriter H → S → Written H E S
  refuse e w s = record { count = 0; error = some e; writer = w; disk = s }

  abbrev pub counted : RotatingWriter H → (ℕ × Option E) × S → Written H E S
  counted w ((n, e), s) = record {
    count = n;
    error = e;
    writer = record w { size = add64 w.size n };
    disk = s;
  }

  abbrev pub append_record : Bytes → H → RotatingWriter H → S → Written H E S
  append_record p h w s = counted w (os.write_file h p s)

  abbrev pub after_reopen : Bytes → RotatingWriter H → Reply E H × S → Written H E S
  after_reopen p w (refused e, s) = refuse e w s
  after_reopen p w (got h, s) = append_record p h (record w { file = some h; size = pos 0 }) s

  abbrev pub after_rename : Bytes → RotatingWriter H → Option E × S → Written H E S
  after_rename p w (some e, s) = refuse e w s
  after_rename p w (none, s) = after_reopen p w (os.open_file w.path s)

  abbrev pub after_remove : Bytes → RotatingWriter H → Option E × S → Written H E S
  after_remove p w (none, s) = after_rename p w (os.rename w.path (old_path w.path) s)
  after_remove p w (some e, s) =
      if os.is_not_exist e
      then after_rename p w (os.rename w.path (old_path w.path) s)
      else refuse e w s

  abbrev pub after_close : Bytes → RotatingWriter H → Option E × S → Written H E S
  after_close p w (some e, s) = refuse e w s
  after_close p w (none, s) =
      after_remove p (record w { file = none }) (os.remove (old_path w.path) s)

  abbrev pub write_to : Option H → Bytes → RotatingWriter H → S → Written H E S
  write_to none p w s = refuse os.err_closed w s
  write_to (some h) p w s =
      if is_full p w then after_close p w (os.close_file h s) else append_record p h w s

  unfoldable pub write : Bytes → RotatingWriter H → S → Written H E S
  write p w s = write_to w.file p w s

  -- Close
  abbrev pub close_at : Option H → RotatingWriter H → S → (Option E × RotatingWriter H) × S
  close_at none w s = ((none, w), s)
  close_at (some h) w s = (((os.close_file h s).0, record w { file = none }), (os.close_file h s).1)

  unfoldable pub close : RotatingWriter H → S → (Option E × RotatingWriter H) × S
  close w s = close_at w.file w s

  -- The calls of Write that the logger makes, one for each record of the log.
  unfoldable pub write_all : List Bytes → RotatingWriter H → S → RotatingWriter H × S
  unfolding write
  write_all [] w s = (w, s)
  write_all (p ∷ ps) w s = write_all ps (write p w s).writer (write p w s).disk
