-- ===== src/Logging/Writes.antt =====
-- What one call of Write does to the size of the log file.
use jlu_drcom_win.Base.{
  ℕ, ◌+◌, ◌^◌, ◌≤◌, ◌<◌, ◌≡◌, ◌∙◌, pos_part, ℤ, pos, Option, none, some, Bool, true, false,
  if◌then◌else◌, length, arith, ap, refl, sym, subst,
}
use jlu_drcom_win.Protocol.Types.{Bytes}
use jlu_drcom_win.Logging.{
  add64, Reply, got, refused, Disk, RotatingWriter, old_path, Written, refuse, append_record,
  after_reopen, after_rename, after_remove, after_close, is_full, write_to, write,
}

-- What the writer relies on: the size of a file is what Stat says; a file that is opened where one
-- has just been renamed is empty; a Write adds what it counts, and counts no more than it is given;
-- a Close that fails leaves the size alone.
pub record Sizes {H E S : Type 0} (os : Disk H E S) : Type 0 where
  pub size : H → S → ℕ
  pub stat :
      (h : H) (s : S) (n : ℕ) → (os.stat_size h s).0 ≡ got n → size h (os.stat_size h s).1 ≡ n
  pub fresh :
      (p q : Bytes) (s : S) (h : H)
      → (os.rename p q s).0 ≡ none
      → (os.open_file p (os.rename p q s).1).0 ≡ got h
      → size h (os.open_file p (os.rename p q s).1).1 ≡ 0
  pub counts : (h : H) (p : Bytes) (s : S) → (os.write_file h p s).0.0 ≤ length p
  pub grows :
      (h : H) (p : Bytes) (s : S)
      → size h (os.write_file h p s).1 ≡ size h s + (os.write_file h p s).0.0
  pub keeps :
      (h : H) (s : S) (e : E)
      → (os.close_file h s).0 ≡ some e
      → size h (os.close_file h s).1 ≡ size h s

if-rule :
    {A : Type 0} (P : A → Type 0) (c : Bool) (a b : A)
    → (c ≡ true → P a)
    → (c ≡ false → P b)
    → P (if c then a else b)
if-rule P true a b p q = p refl
if-rule P false a b p q = q refl

pub add64_lem : (a n : ℕ) → a + n < 2 ^ 63 → add64 (pos a) n ≡ pos (a + n)
add64_lem a n l = ground arith

module _ {H E S : Type 0} (os : Disk H E S) (sizes : Sizes os) (bound : ℕ) where
  -- The open file has the size that the writer keeps, and is within the bound.
  abbrev pub IsKeptAt : Option H → ℤ → S → Type 0
  IsKeptAt none n s = Unit {0}
  IsKeptAt (some h) n s = (n ≡ pos (sizes.size h s)) × (sizes.size h s ≤ bound)

  abbrev IsKeptAfter : Written H E S → Type 0
  IsKeptAfter r = IsKeptAt r.writer.file r.writer.size r.disk

  append-IsKept :
      (p : Bytes) (h : H) (w : RotatingWriter H) (s : S)
      → w.file ≡ some h
      → w.size ≡ pos (sizes.size h s)
      → sizes.size h s + length p ≤ bound
      → bound < 2 ^ 63
      → IsKeptAfter (append_record os p h w s)
  append-IsKept p h w s f e l b =
      subst (λ file. IsKeptAt file (add64 w.size (os.write_file h p s).0.0) (os.write_file h p s).1)
        (sym f)
        (
          subst
              (λ n. add64 n (os.write_file h p s).0.0 ≡ pos (sizes.size h (os.write_file h p s).1))
              (sym e)
              (ap (λ n. n)
                (ground (
                  arith,
                  add64_lem (sizes.size h s) (os.write_file h p s).0.0,
                  sizes.grows h p s,
                  sizes.counts h p s,
                ))),
          omega (arith, sizes.grows h p s, sizes.counts h p s),
        )

  reopen-IsKept :
      (p : Bytes) (w : RotatingWriter H) (r : Reply E H × S)
      → ((h : H) → r.0 ≡ got h → sizes.size h r.1 ≡ 0)
      → w.file ≡ none
      → length p ≤ bound
      → bound < 2 ^ 63
      → IsKeptAfter (after_reopen os p w r)
  reopen-IsKept p w (refused e, s) z f l b = subst (λ file. IsKeptAt file w.size s) (sym f) tt
  reopen-IsKept p w (got h, s) z f l b =
      append-IsKept p h (record w { file = some h; size = pos 0 }) s refl (ap pos (sym (z h refl)))
        (omega (arith, z h refl)) b

  rename-IsKept :
      (p : Bytes) (w : RotatingWriter H) (s : S)
      → w.file ≡ none
      → length p ≤ bound
      → bound < 2 ^ 63
      → IsKeptAfter (after_rename os p w (os.rename w.path (old_path w.path) s))
  rename-IsKept p w s f l b =
      at_outcome (os.rename w.path (old_path w.path) s)
        (λ h. sizes.fresh w.path (old_path w.path) s h)
    where
      at_outcome :
          (r : Option E × S)
          → ((h : H)
              → r.0 ≡ none
              → (os.open_file w.path r.1).0 ≡ got h
              → sizes.size h (os.open_file w.path r.1).1 ≡ 0)
          → IsKeptAfter (after_rename os p w r)
      at_outcome (some e, t) z = subst (λ file. IsKeptAt file w.size t) (sym f) tt
      at_outcome (none, t) z = reopen-IsKept p w (os.open_file w.path t) (λ h. z h refl) f l b

  remove-IsKept :
      (p : Bytes) (w : RotatingWriter H) (r : Option E × S)
      → w.file ≡ none
      → length p ≤ bound
      → bound < 2 ^ 63
      → IsKeptAfter (after_remove os p w r)
  remove-IsKept p w (none, s) f l b = rename-IsKept p w s f l b
  remove-IsKept p w (some e, s) f l b =
      if-rule IsKeptAfter (os.is_not_exist e)
        (after_rename os p w (os.rename w.path (old_path w.path) s)) (refuse os e w s)
        (λ _. rename-IsKept p w s f l b) (λ _. subst (λ file. IsKeptAt file w.size s) (sym f) tt)

  close-IsKept :
      (p : Bytes) (h : H) (w : RotatingWriter H) (s : S)
      → w.file ≡ some h
      → w.size ≡ pos (sizes.size h s)
      → sizes.size h s ≤ bound
      → length p ≤ bound
      → bound < 2 ^ 63
      → IsKeptAfter (after_close os p w (os.close_file h s))
  close-IsKept p h w s f e k l b = at_outcome (os.close_file h s) (sizes.keeps h s)
    where
      at_outcome :
          (r : Option E × S)
          → ((e : E) → r.0 ≡ some e → sizes.size h r.1 ≡ sizes.size h s)
          → IsKeptAfter (after_close os p w r)
      at_outcome (some x, t) z =
          subst (λ file. IsKeptAt file w.size t) (sym f)
            (e ∙ ap pos (sym (z x refl)), omega (arith, z x refl))
      at_outcome (none, t) z =
          remove-IsKept p (record w { file = none }) (os.remove (old_path w.path) t) refl l b

  room :
      (p : Bytes) (w : RotatingWriter H) (n : ℕ)
      → w.size ≡ pos n
      → n ≤ bound
      → length p ≤ bound
      → pos_part w.limit ≤ bound
      → bound + bound < 2 ^ 63
      → is_full p w ≡ false
      → n + length p ≤ bound
  room p w n e k l m b c = ground (arith, add64_lem n (length p))

  write_to-IsKept :
      (file : Option H) (p : Bytes) (w : RotatingWriter H) (s : S)
      → w.file ≡ file
      → IsKeptAt file w.size s
      → length p ≤ bound
      → pos_part w.limit ≤ bound
      → bound + bound < 2 ^ 63
      → IsKeptAfter (write_to os file p w s)
  write_to-IsKept none p w s f k l m b = subst (λ file. IsKeptAt file w.size s) (sym f) tt
  write_to-IsKept (some h) p w s f k l m b =
      if-rule IsKeptAfter (is_full p w) (after_close os p w (os.close_file h s))
        (append_record os p h w s) (λ _. close-IsKept p h w s f k.0 k.1 l (omega arith))
        (λ c. append-IsKept p h w s f k.0 (room p w (sizes.size h s) k.0 k.1 l m b c) (omega arith))

  pub write-IsKept :
      (p : Bytes) (w : RotatingWriter H) (s : S)
      → IsKeptAt w.file w.size s
      → length p ≤ bound
      → pos_part w.limit ≤ bound
      → bound + bound < 2 ^ 63
      → IsKeptAfter (write os p w s)
  unfolding write
  write-IsKept p w s = write_to-IsKept w.file p w s refl

  -- The limit of a writer never changes.
  pub write-limit :
      (p : Bytes) (w : RotatingWriter H) (s : S) → (write os p w s).writer.limit ≡ w.limit
  unfolding write
  write-limit p w s = ground arith
