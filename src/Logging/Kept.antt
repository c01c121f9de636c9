-- ===== src/Logging/Kept.antt =====
-- How long the log file can get.
use jlu_drcom_win.Base.{
  ℕ, ◌+◌, ◌^◌, ◌≤◌, ◌<◌, ◌≡◌, pos_part, ℤ, Option, none, some, List, [], ◌∷◌, All, length, arith,
  refl, sym, subst,
}
use jlu_drcom_win.Protocol.Types.{Bytes}
use jlu_drcom_win.Logging.{
  to_int64, Reply, got, refused, Disk, RotatingWriter, after_stat, after_create, after_parents,
  open_writer, write, write_all,
}
use jlu_drcom_win.Logging.Writes.{Sizes, add64_lem, IsKeptAt, write-IsKept, write-limit}

module _ {H E S : Type 0} (os : Disk H E S) (sizes : Sizes os) (bound : ℕ) where
  -- The size of a file that has just been opened, and its bound.
  abbrev IsOpenAt : Option H → ℤ → S → Type 0
  IsOpenAt none n s = ⊥
  IsOpenAt (some h) n s = n ≡ to_int64 (sizes.size h s)

  abbrev pub IsWithin : Option H → S → Type 0
  IsWithin none s = ⊥
  IsWithin (some h) s = sizes.size h s ≤ bound

  write_all-IsKept :
      (ps : List Bytes) (w : RotatingWriter H) (s : S)
      → IsKeptAt os sizes bound w.file w.size s
      → All (λ p. length p ≤ bound) ps
      → pos_part w.limit ≤ bound
      → bound + bound < 2 ^ 63
      → IsKeptAt os sizes bound
          (write_all os ps w s).0.file
          (write_all os ps w s).0.size
          (write_all os ps w s).1
  unfolding write_all
  write_all-IsKept [] w s k l m b = k
  write_all-IsKept (p ∷ ps) w s k l m b =
      write_all-IsKept ps (write os p w s).writer (write os p w s).disk
        (write-IsKept os sizes bound p w s k l.0 m b) l.1
        (subst (λ n. pos_part n ≤ bound) (sym (write-limit os sizes bound p w s)) m) b

  at_stat :
      (path : Bytes) (limit : ℤ) (h : H) (r : Reply E ℕ × S) (w : RotatingWriter H) (t : S)
      → ((n : ℕ) → r.0 ≡ got n → sizes.size h r.1 ≡ n)
      → after_stat os path limit h r ≡ (got w, t)
      → (w.limit ≡ limit) × (w.file ≡ some h) × (w.size ≡ to_int64 (sizes.size h t))
  at_stat path limit h (refused e, s) w t z q = ground arith
  at_stat path limit h (got n, s) w t z q = ground (arith, z n refl)

  at_create :
      (path : Bytes) (limit : ℤ) (r : Reply E H × S) (w : RotatingWriter H) (t : S)
      → after_create os path limit r ≡ (got w, t)
      → (w.limit ≡ limit) × IsOpenAt w.file w.size t
  at_create path limit (refused e, s) w t q = ground arith
  at_create path limit (got h, s) w t q = (
    (at_stat path limit h (os.stat_size h s) w t (sizes.stat h s) q).0,
    subst (λ file. IsOpenAt file w.size t)
        (sym (at_stat path limit h (os.stat_size h s) w t (sizes.stat h s) q).1)
        (at_stat path limit h (os.stat_size h s) w t (sizes.stat h s) q).2,
  )

  at_parents :
      (path : Bytes) (limit : ℤ) (r : Option E × S) (w : RotatingWriter H) (t : S)
      → after_parents os path limit r ≡ (got w, t)
      → (w.limit ≡ limit) × IsOpenAt w.file w.size t
  at_parents path limit (some e, s) w t q = ground arith
  at_parents path limit (none, s) w t q = at_create path limit (os.open_file path s) w t q

  within-IsKeptAt :
      (file : Option H) (n : ℤ) (t : S)
      → IsOpenAt file n t
      → IsWithin file t
      → bound < 2 ^ 63
      → IsKeptAt os sizes bound file n t
  within-IsKeptAt none n t o l b = tt
  within-IsKeptAt (some h) n t o l b =
      (ground (arith, o, add64_lem 0 (sizes.size h t) (omega (arith, l))), l)

  -- If the log file is opened with no more bytes in it than the bound, and neither the limit nor any
  -- record is longer than the bound, then the file stays within the bound and the writer knows its
  -- size, after any number of records, whichever operations of the file system fail. (The bound is
  -- below half of the largest int64.)
  pub log-IsKeptAt :
      (path : Bytes) (limit : ℤ) (s : S) (w : RotatingWriter H) (t : S) (ps : List Bytes)
      → open_writer os path limit s ≡ (got w, t)
      → IsWithin w.file t
      → All (λ p. length p ≤ bound) ps
      → pos_part limit ≤ bound
      → bound + bound < 2 ^ 63
      → IsKeptAt os sizes bound
          (write_all os ps w t).0.file
          (write_all os ps w t).0.size
          (write_all os ps w t).1
  unfolding open_writer
  log-IsKeptAt path limit s w t ps q l r m b =
      write_all-IsKept ps w t
        (within-IsKeptAt w.file w.size t (at_parents path limit (os.make_parents path s) w t q).1 l
          (omega arith))
        r
        (subst (λ n. pos_part n ≤ bound)
          (sym (at_parents path limit (os.make_parents path s) w t q).0) m)
        b
