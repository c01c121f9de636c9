-- ===== src/Protocol/Layout.antt =====
-- Packets as tables of fields (docs/PROTOCOL_FIELDS.md): rows in the order of their offsets, each a
-- half-open range and its bytes. Copying the rows into a zeroed buffer renders the table.
pub mod Fields
use mathlib.Core.List.{append_assoc, append-nil}
use native.Mathlib.Nat.{sub-zero, zero-sub}
use jlu_drcom_win.Base.{
  ℕ, zero, suc, ◌+◌, ◌-◌, ◌≤◌, ◌≡◌, refl, sym, ap, ap₂, ◌∙◌, Bool, true, false, ◌&&◌, List, [], ◌∷◌,
  ◌++◌, Option, none, some, length, take, drop, replicate, leb, le→leb, take_of_length_le,
  if◌then◌else◌, arith, length-append, length-take, length-drop, length-replicate, take-append_le,
  take-append_ge, drop-append_ge, take-replicate, drop-replicate, take_of_length_le,
}
use jlu_drcom_win.Protocol.Types.{Bytes}
use jlu_drcom_win.Protocol.Buffer.{slice, overwrite, copy_to, make_bytes, ◌>>=◌}

abbrev pub Row : Type 0
Row = ℕ × ℕ × Bytes

-- A field of `n` bytes: cut off or padded with zeros.
unfoldable pub fit : ℕ → Bytes → Bytes
fit n src = take n src ++ replicate (n - length src) 0

-- The bytes from `pos` to `size`, zero between the rows and after them.
unfoldable pub render : ℕ → ℕ → List Row → Bytes
render pos size [] = replicate (size - pos) 0
render pos size ((lo, hi, src) ∷ rows) =
    replicate (lo - pos) 0 ++ (fit (hi - lo) src ++ render hi size rows)

-- The rows follow one another between `pos` and `size`.
abbrev pub InOrder : ℕ → ℕ → List Row → Type 0
InOrder pos size [] = pos ≤ size
InOrder pos size ((lo, hi, src) ∷ rows) = (pos ≤ lo) × (lo ≤ hi) × InOrder hi size rows

-- One `copy` for each row.
abbrev pub copies : List Row → Bytes → Option Bytes
copies [] p = some p
copies ((lo, hi, src) ∷ rows) p = copy_to lo hi src p >>= copies rows

overwrite-zeros : (n : ℕ) (src : Bytes) → overwrite (make_bytes n) src ≡ fit n src
unfolding fit
overwrite-zeros zero src = rw zero-sub
overwrite-zeros (suc n) [] = rw sub-zero
overwrite-zeros (suc n) (s ∷ src) =
    ap (◌∷◌ s) (overwrite-zeros n src ∙ ap (λ k. take n src ++ make_bytes k) (omega arith))

pub length-fit : (n : ℕ) (src : Bytes) → length (fit n src) ≡ n
unfolding fit
length-fit n src = omega (
  arith,
  length-append (take n src) (replicate (n - length src) 0),
  length-take n src,
  length-replicate {A = ℕ} (n - length src) 0,
)

InOrder-le : (pos size : ℕ) (rows : List Row) → InOrder pos size rows → pos ≤ size
InOrder-le pos size [] h = h
InOrder-le pos size ((lo, hi, src) ∷ rows) h = omega (arith, InOrder-le hi size rows h.2)

pub length-render :
    (pos size : ℕ) (rows : List Row)
    → InOrder pos size rows
    → length (render pos size rows) ≡ size - pos
unfolding render
length-render pos size [] h = length-replicate _ _
length-render pos size ((lo, hi, src) ∷ rows) h = omega (
  arith,
  length-append (replicate (lo - pos) 0) (fit (hi - lo) src ++ render hi size rows),
  length-append (fit (hi - lo) src) (render hi size rows),
  length-replicate {A = ℕ} (lo - pos) 0,
  length-fit (hi - lo) src,
  length-render hi size rows h.2,
  InOrder-le hi size rows h.2,
)

take_past :
    (n m : ℕ) (done : Bytes)
    → length done ≤ n
    → n - length done ≤ m
    → take n (done ++ make_bytes m) ≡ done ++ make_bytes (n - length done)
take_past n m done a b =
    take-append_ge n done (make_bytes m) a ∙ ap (◌++◌ done) (take-replicate (n - length done) m 0 b)

drop_past :
    (n m : ℕ) (done : Bytes)
    → length done ≤ n
    → drop n (done ++ make_bytes m) ≡ make_bytes (m - (n - length done))
drop_past n m done a = drop-append_ge n done (make_bytes m) a ∙ drop-replicate (n - length done) m 0

-- A copy behind what is done, into zeros.
copy_to-zeros :
    (done : Bytes) (lo hi size : ℕ) (src : Bytes)
    → length done ≤ lo
    → lo ≤ hi
    → hi ≤ size
    → copy_to lo hi src (done ++ make_bytes (size - length done))
      ≡ some
          ((done ++ (make_bytes (lo - length done) ++ fit (hi - lo) src)) ++ make_bytes (size - hi))
unfolding copy_to
copy_to-zeros done lo hi size src a b c =
    rw
      (
        le→leb lo hi b,
        le→leb hi _ long,
        take_past lo (size - length done) done a (omega arith),
        hole,
        overwrite-zeros (hi - lo) src,
        rest,
      )
      (ap some regroup)
  where
    long : hi ≤ length (done ++ make_bytes (size - length done))
    long = omega (
      arith,
      length-append done (make_bytes (size - length done)),
      length-replicate {A = ℕ} (size - length done) 0,
    )

    hole : slice lo hi (done ++ make_bytes (size - length done)) ≡ make_bytes (hi - lo)
    hole =
        ap (take (hi - lo)) (drop_past lo (size - length done) done a)
        ∙ take-replicate (hi - lo) _ 0 (omega arith)

    rest : drop hi (done ++ make_bytes (size - length done)) ≡ make_bytes (size - hi)
    rest = drop_past hi (size - length done) done (omega arith) ∙ ap make_bytes (omega arith)

    regroup :
        (done ++ make_bytes (lo - length done)) ++ (fit (hi - lo) src ++ make_bytes (size - hi))
        ≡ (done ++ (make_bytes (lo - length done) ++ fit (hi - lo) src)) ++ make_bytes (size - hi)
    regroup = simp append_assoc

-- A copy right behind what is done, into `m` zeros.
pub copy_behind :
    (done src : Bytes) (lo hi m : ℕ)
    → length done ≡ lo
    → lo + m ≡ hi
    → length src ≤ m
    → copy_to lo hi src (done ++ make_bytes m) ≡ some ((done ++ src) ++ make_bytes (m - length src))
unfolding fit
copy_behind done src lo hi m e f h =
    ap (λ k. copy_to lo hi src (done ++ make_bytes k)) zeros_left
    ∙ copy_to-zeros done lo hi hi src (omega arith) (omega arith) (omega arith)
    ∙ ap some
        (rw (no_gap, no_rest, width, take_of_length_le m src h) (simp (append_assoc, append-nil)))
  where
    zeros_left : m ≡ hi - length done
    zeros_left = omega arith

    no_gap : lo - length done ≡ 0
    no_gap = omega arith

    no_rest : hi - hi ≡ 0
    no_rest = omega arith

    width : hi - lo ≡ m
    width = omega arith

copies-done :
    (done : Bytes) (pos size : ℕ) (rows : List Row)
    → length done ≡ pos
    → InOrder pos size rows
    → copies rows (done ++ make_bytes (size - pos)) ≡ some (done ++ render pos size rows)
unfolding render
copies-done done pos size [] e h = refl
copies-done done pos size ((lo, hi, src) ∷ rows) e h =
    ap (λ k. copy_to lo hi src (done ++ make_bytes (size - k)) >>= copies rows) (sym e)
    ∙ ap (λ o. o >>= copies rows)
        (copy_to-zeros done lo hi size src (omega arith) (omega arith)
          (InOrder-le hi size rows h.2))
    ∙ copies-done next hi size rows reached h.2
    ∙ ap some (
        simp append_assoc
          (ap (λ k. done ++ (make_bytes (lo - k) ++ (fit (hi - lo) src ++ render hi size rows))) e))
  where
    next : Bytes
    next = done ++ (make_bytes (lo - length done) ++ fit (hi - lo) src)

    reached : length next ≡ hi
    reached = omega (
      arith,
      length-append done (make_bytes (lo - length done) ++ fit (hi - lo) src),
      length-append (make_bytes (lo - length done)) (fit (hi - lo) src),
      length-replicate {A = ℕ} (lo - length done) 0,
      length-fit (hi - lo) src,
    )

-- Copying the rows of a table, in order, into a zeroed buffer renders the table.
pub copies-render :
    (size : ℕ) (rows : List Row)
    → InOrder 0 size rows
    → copies rows (make_bytes size) ≡ some (render 0 size rows)
copies-render size rows h =
    ap (λ k. copies rows (make_bytes k)) (omega arith) ∙ copies-done [] 0 size rows refl h

-- The same, with what follows the copies.
pub copies-then {ℓ} :
    {A : Type ℓ} (size : ℕ) (rows : List Row) (k : Bytes → Option A)
    → InOrder 0 size rows
    → (copies rows (make_bytes size) >>= k) ≡ k (render 0 size rows)
copies-then size rows k h = ap (λ o. o >>= k) (copies-render size rows h)
