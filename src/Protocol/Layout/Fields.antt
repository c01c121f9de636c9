-- ===== src/Protocol/Layout/Fields.antt =====
-- Reading a rendered table: its prefix, and the bytes of one row.
use mathlib.Core.Path.{fun_ext}
use jlu_drcom_win.Base.{
  ℕ, suc, ◌-◌, ◌≤◌, ◌≡◌, refl, sym, ap, ap₂, ◌∙◌, List, [], ◌∷◌, ◌++◌, Option, some, length, take,
  drop, arith, length-replicate, take-append_le, take-append_ge, drop-append_ge, take-replicate,
  take_of_length_le, append-nil, le→leb, get_elem?, subst, split_at, suc,
}
use jlu_drcom_win.Protocol.Types.{Bytes}
use jlu_drcom_win.Protocol.Buffer.{slice, slice?, copy_to, make_bytes, ◌>>=◌, bind_assoc}
use jlu_drcom_win.Protocol.Layout.{
  Row, fit, render, InOrder, copies, length-fit, length-render, InOrder-le, copies-render,
}

pub InOrder-mono :
    (pos n size : ℕ) (rows : List Row) → InOrder pos n rows → n ≤ size → InOrder pos size rows
InOrder-mono pos n size [] h k = omega arith
InOrder-mono pos n size ((lo, hi, src) ∷ rows) h k = (h.0, h.1, InOrder-mono hi n size rows h.2 k)

pub copies-append :
    (rows more : List Row) (p : Bytes) → copies (rows ++ more) p ≡ (copies rows p >>= copies more)
copies-append [] more p = refl
copies-append ((lo, hi, src) ∷ rows) more p =
    ap (◌>>=◌ (copy_to lo hi src p)) (fun_ext (copies-append rows more))
    ∙ sym (bind_assoc (copy_to lo hi src p) (copies rows) (copies more))

pub InOrder-append_left :
    (pos size : ℕ) (rows more : List Row) → InOrder pos size (rows ++ more) → InOrder pos size rows
InOrder-append_left pos size [] more h = InOrder-le pos size more h
InOrder-append_left pos size ((lo, hi, src) ∷ rows) more h =
    (h.0, h.1, InOrder-append_left hi size rows more h.2)

-- More rows, copied into a rendered table.
pub copies-more :
    (size : ℕ) (rows more : List Row)
    → InOrder 0 size (rows ++ more)
    → copies more (render 0 size rows) ≡ some (render 0 size (rows ++ more))
copies-more size rows more h =
    ap (λ o. o >>= copies more)
      (sym (copies-render size rows (InOrder-append_left 0 size rows more h)))
    ∙ sym (copies-append rows more (make_bytes size))
    ∙ copies-render size (rows ++ more) h

-- The same, with what follows the copies.
pub copies-more_then {ℓ} :
    {A : Type ℓ} (size : ℕ) (rows more : List Row) (k : Bytes → Option A)
    → InOrder 0 size (rows ++ more)
    → (copies more (render 0 size rows) >>= k) ≡ k (render 0 size (rows ++ more))
copies-more_then size rows more k h = ap (λ o. o >>= k) (copies-more size rows more h)

-- The first `n` bytes are the table of size `n`, if the rows end there.
pub take-render :
    (pos n size : ℕ) (rows : List Row)
    → InOrder pos n rows
    → n ≤ size
    → take (n - pos) (render pos size rows) ≡ render pos n rows
unfolding render
take-render pos n size [] h k = take-replicate (n - pos) (size - pos) 0 (omega arith)
take-render pos n size ((lo, hi, src) ∷ rows) h k =
    take-append_ge (n - pos) (make_bytes (lo - pos)) _ (omega (arith, gap, inside))
    ∙ ap (◌++◌ (make_bytes (lo - pos))) (
        take-append_ge (n - pos - length (make_bytes (lo - pos))) (fit (hi - lo) src) _
          (omega (arith, gap, inside, width))
        ∙ ap (◌++◌ (fit (hi - lo) src)) (
            ap (λ m. take m (render hi size rows)) (omega (arith, gap, inside, width))
            ∙ take-render hi n size rows h.2 k))
  where
    gap : length (make_bytes (lo - pos)) ≡ lo - pos
    gap = length-replicate (lo - pos) 0

    inside : hi ≤ n
    inside = InOrder-le hi n rows h.2

    width : length (fit (hi - lo) src) ≡ hi - lo
    width = length-fit (hi - lo) src

slice_skip :
    (lo hi : ℕ) (xs ys : Bytes)
    → length xs ≤ lo
    → slice lo hi (xs ++ ys) ≡ slice (lo - length xs) (hi - length xs) ys
slice_skip lo hi xs ys h =
    ap (take (hi - lo)) (drop-append_ge lo xs ys h)
    ∙ ap (λ k. take k (drop (lo - length xs) ys)) (omega arith)

slice_front : (n : ℕ) (xs ys : Bytes) → length xs ≡ n → slice 0 n (xs ++ ys) ≡ xs
slice_front n xs ys e =
    ap (λ k. take k (xs ++ ys)) (omega arith)
    ∙ take-append_le n xs ys (omega arith)
    ∙ take_of_length_le n xs (omega arith)

InOrder-at :
    (pos size lo hi : ℕ) (src : Bytes) (before after : List Row)
    → InOrder pos size (before ++ (lo, hi, src) ∷ after)
    → (pos ≤ lo) × (lo ≤ hi) × (hi ≤ size)
InOrder-at pos size lo hi src [] after h = (h.0, h.1, InOrder-le hi size after h.2)
InOrder-at pos size lo hi src ((l, k, bs) ∷ before) after h =
    omega (arith, InOrder-at k size lo hi src before after h.2)

-- The bytes of a row are its bytes, cut off or padded to its range.
field-render_from :
    (pos size lo hi : ℕ) (src : Bytes) (before after : List Row)
    → InOrder pos size (before ++ (lo, hi, src) ∷ after)
    → slice (lo - pos) (hi - pos) (render pos size (before ++ (lo, hi, src) ∷ after))
      ≡ fit (hi - lo) src
unfolding render
field-render_from pos size lo hi src [] after h =
    slice_skip (lo - pos) (hi - pos) (make_bytes (lo - pos)) _ (omega (arith, gap))
    ∙ ap₂ (λ i j. slice i j (fit (hi - lo) src ++ render hi size after)) (omega (arith, gap))
        (omega (arith, gap))
    ∙ slice_front (hi - lo) (fit (hi - lo) src) _ (length-fit (hi - lo) src)
  where
    gap : length (make_bytes (lo - pos)) ≡ lo - pos
    gap = length-replicate (lo - pos) 0
field-render_from pos size lo hi src ((l, k, bs) ∷ before) after h =
    slice_skip (lo - pos) (hi - pos) (make_bytes (l - pos)) _ (omega (arith, gap, later))
    ∙ slice_skip _ _ (fit (k - l) bs) _ (omega (arith, gap, width, later))
    ∙ ap₂ (λ i j. slice i j (render k size (before ++ (lo, hi, src) ∷ after)))
        (omega (arith, gap, width, later)) (omega (arith, gap, width, later))
    ∙ field-render_from k size lo hi src before after h.2
  where
    gap : length (make_bytes (l - pos)) ≡ l - pos
    gap = length-replicate (l - pos) 0

    width : length (fit (k - l) bs) ≡ k - l
    width = length-fit (k - l) bs

    later : (k ≤ lo) × (lo ≤ hi) × (hi ≤ size)
    later = InOrder-at k size lo hi src before after h.2

pub field-render :
    (size lo hi : ℕ) (src : Bytes) (before after : List Row)
    → InOrder 0 size (before ++ (lo, hi, src) ∷ after)
    → slice lo hi (render 0 size (before ++ (lo, hi, src) ∷ after)) ≡ fit (hi - lo) src
field-render size lo hi src before after h =
    ap₂ (λ i j. slice i j (render 0 size (before ++ (lo, hi, src) ∷ after))) (omega arith)
      (omega arith)
    ∙ field-render_from 0 size lo hi src before after h

-- The same for the row at a position of the table.
pub row-render :
    (size k lo hi : ℕ) (src : Bytes) (rows : List Row)
    → get_elem? rows k ≡ some (lo, hi, src)
    → InOrder 0 size rows
    → slice lo hi (render 0 size rows) ≡ fit (hi - lo) src
row-render size k lo hi src rows e h =
    ap (λ r. slice lo hi (render 0 size r)) split
    ∙ field-render size lo hi src (take k rows) (drop (suc k) rows) (subst (InOrder 0 size) split h)
  where
    split : rows ≡ take k rows ++ (lo, hi, src) ∷ drop (suc k) rows
    split = split_at k rows (lo, hi, src) e

-- Bytes of the right number fill their field.
pub fit-eq : (n : ℕ) (src : Bytes) → length src ≡ n → fit n src ≡ src
unfolding fit
fit-eq n src e =
    ap₂ ◌++◌ (take_of_length_le n src (omega arith)) (ap make_bytes none_left) ∙ append-nil src
  where
    none_left : n - length src ≡ 0
    none_left = omega arith

-- packet[:n] of a rendered table whose rows end by then does not panic.
pub slice?-render :
    (n size : ℕ) (rows : List Row)
    → InOrder 0 n rows
    → n ≤ size
    → slice? 0 n (render 0 size rows) ≡ some (render 0 n rows)
unfolding slice?
slice?-render n size rows h k =
    rw (le→leb 0 n (omega arith), le→leb n (length (render 0 size rows)) long)
      (ap some (take-render 0 n size rows h k))
  where
    long : n ≤ length (render 0 size rows)
    long = omega (arith, length-render 0 size rows (InOrder-mono 0 n size rows h k))
