-- ===== src/Tests/Logs.antt =====
-- A log file of ten bytes, on a disk that knows the length of one file.
use jlu_drcom_win.Base.{
  ℕ, ◌+◌, ◌≡◌, ◌==◌, Option, none, some, List, [], ◌∷◌, refl, arith, pos, length,
}
use jlu_drcom_win.Protocol.Types.{Bytes}
use jlu_drcom_win.Logging.{got, Disk, RotatingWriter, open_writer, write, write_all}
use jlu_drcom_win.Logging.Writes.{Sizes, IsKeptAt}
use jlu_drcom_win.Logging.Kept.{log-IsKeptAt}
use jlu_drcom_win.Logging.Lost.{IsFailure, write-closed}

abbrev disk_with : Option ℕ → Disk (Unit {0}) ℕ ℕ
disk_with renaming = record {
  make_parents = λ p s. (none, s);
  open_file = λ p s. (got tt, s);
  stat_size = λ h s. (got s, s);
  close_file = λ h s. (none, s);
  remove = λ p s. (some 2, s);
  rename = λ p q s. (renaming, 0);
  write_file = λ h p s. ((length p, none), s + length p);
  err_closed = 1;
  is_not_exist = λ e. e == 2;
}

abbrev disk : Disk (Unit {0}) ℕ ℕ
disk = disk_with none

abbrev sizes : Sizes disk
sizes = record {
  size = λ h s. s;
  stat = λ h s n e. ground arith;
  fresh = λ p q s h a b. refl;
  counts = λ h p s. omega arith;
  grows = λ h p s. refl;
  keeps = λ h s e a. refl;
}

abbrev writer : RotatingWriter (Unit {0})
writer = record { path = []; limit = pos 10; file = some tt; size = pos 4 }

abbrev records : List Bytes
records = (1 ∷ 2 ∷ 3 ∷ 4 ∷ []) ∷ (5 ∷ 6 ∷ 7 ∷ []) ∷ []

opened : open_writer disk [] (pos 10) 4 ≡ (got writer, 4)
unfolding open_writer
opened = refl

log-IsKeptAt_example :
    IsKeptAt disk sizes 10
      (write_all disk records writer 4).0.file
      (write_all disk records writer 4).0.size
      (write_all disk records writer 4).1
log-IsKeptAt_example =
    log-IsKeptAt disk sizes 10 [] (pos 10) 4 writer 4 records opened (omega arith)
      (omega arith, (omega arith, tt)) (omega arith) (omega arith)

-- The third record needs a rotation, and the file cannot be renamed.
abbrev full : RotatingWriter (Unit {0})
full = record { path = []; limit = pos 10; file = some tt; size = pos 8 }

rotation_fails : (write (disk_with (some 5)) (5 ∷ 6 ∷ 7 ∷ []) full 8).writer.file ≡ none
unfolding write
rotation_fails = refl

write-closed_example :
    IsFailure (disk_with (some 5)) (write (disk_with (some 5)) (5 ∷ 6 ∷ 7 ∷ []) full 8)
    × (write_all
          (disk_with (some 5))
          records
          (write (disk_with (some 5)) (5 ∷ 6 ∷ 7 ∷ []) full 8).writer
          (write (disk_with (some 5)) (5 ∷ 6 ∷ 7 ∷ []) full 8).disk
        ≡ (
          (write (disk_with (some 5)) (5 ∷ 6 ∷ 7 ∷ []) full 8).writer,
          (write (disk_with (some 5)) (5 ∷ 6 ∷ 7 ∷ []) full 8).disk,
        ))
write-closed_example =
    write-closed (disk_with (some 5)) (5 ∷ 6 ∷ 7 ∷ []) full 8 records rotation_fails
