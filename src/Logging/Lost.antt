-- ===== src/Logging/Lost.antt =====
-- What follows a rotation that fails half way.
use jlu_drcom_win.Base.{◌≡◌, ◌≢◌, Option, none, some, List, [], ◌∷◌, refl, arith}
use jlu_drcom_win.Protocol.Types.{Bytes}
use jlu_drcom_win.Logging.{
  Reply, got, refused, Disk, RotatingWriter, old_path, Written, after_reopen, after_rename,
  after_remove, after_close, write_to, write, write_all,
}

module _ {H E S : Type 0} (os : Disk H E S) where
  -- Nothing was written, and there is an error.
  abbrev pub IsFailure : Written H E S → Type 0
  IsFailure r = (r.count ≡ 0) × (r.error ≢ none)

  reopen-IsFailure :
      (p : Bytes) (w : RotatingWriter H) (r : Reply E H × S)
      → (after_reopen os p w r).writer.file ≡ none
      → IsFailure (after_reopen os p w r)
  reopen-IsFailure p w (refused e, s) f = ground arith
  reopen-IsFailure p w (got h, s) f = ground arith

  rename-IsFailure :
      (p : Bytes) (w : RotatingWriter H) (r : Option E × S)
      → (after_rename os p w r).writer.file ≡ none
      → IsFailure (after_rename os p w r)
  rename-IsFailure p w (some e, s) f = ground arith
  rename-IsFailure p w (none, s) f = reopen-IsFailure p w (os.open_file w.path s) f

  remove-IsFailure :
      (p : Bytes) (w : RotatingWriter H) (r : Option E × S)
      → (after_remove os p w r).writer.file ≡ none
      → IsFailure (after_remove os p w r)
  remove-IsFailure p w (none, s) f = rename-IsFailure p w (os.rename w.path (old_path w.path) s) f
  remove-IsFailure p w (some e, s) f =
      ground (arith, rename-IsFailure p w (os.rename w.path (old_path w.path) s))

  close-IsFailure :
      (p : Bytes) (w : RotatingWriter H) (r : Option E × S)
      → (after_close os p w r).writer.file ≡ none
      → IsFailure (after_close os p w r)
  close-IsFailure p w (some e, s) f = ground arith
  close-IsFailure p w (none, s) f =
      remove-IsFailure p (record w { file = none }) (os.remove (old_path w.path) s) f

  write_to-IsFailure :
      (file : Option H) (p : Bytes) (w : RotatingWriter H) (s : S)
      → w.file ≡ file
      → (write_to os file p w s).writer.file ≡ none
      → IsFailure (write_to os file p w s)
  write_to-IsFailure none p w s e f = ground arith
  write_to-IsFailure (some h) p w s e f = ground (arith, close-IsFailure p w (os.close_file h s))

  closed_lem :
      (ps : List Bytes) (w : RotatingWriter H) (s : S)
      → w.file ≡ none
      → write_all os ps w s ≡ (w, s)
  unfolding write_all write
  closed_lem [] w s f = refl
  closed_lem (p ∷ ps) w s f = ground (arith, closed_lem ps w s)

  write-IsFailure :
      (p : Bytes) (w : RotatingWriter H) (s : S)
      → (write os p w s).writer.file ≡ none
      → IsFailure (write os p w s)
  unfolding write
  write-IsFailure p w s f = write_to-IsFailure w.file p w s refl f

  -- A call of Write that leaves the writer without a file, whether it was closed or its rotation
  -- failed, has written nothing and returns an error; and no later call changes the writer or the
  -- disk.
  pub write-closed :
      (p : Bytes) (w : RotatingWriter H) (s : S) (ps : List Bytes)
      → (write os p w s).writer.file ≡ none
      → IsFailure (write os p w s)
        × (write_all os ps (write os p w s).writer (write os p w s).disk
            ≡ ((write os p w s).writer, (write os p w s).disk))
  write-closed p w s ps f =
      (write-IsFailure p w s f, closed_lem ps (write os p w s).writer (write os p w s).disk f)
