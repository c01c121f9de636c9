-- ===== src/Protocol/Buffer.antt =====
-- What the builders use of Go: byte slices, `copy`, index assignment, and a random reader
-- (`mustReadRandom` of internal/protocol/challenge.go, `copyFixed` of internal/protocol/login.go).
-- `none` is a panic: an index or a slice out of range, or a random reader that fails.
use jlu_drcom_win.Base.{
  ℕ, zero, suc, ◌+◌, ◌-◌, ◌≤◌, ◌≡◌, refl, ap, Bool, true, false, ◌&&◌, [], ◌∷◌, ◌++◌, Option, none,
  some, length, take, drop, replicate, leb, if◌then◌else◌, min, arith, ◌==◌, not, get_elem?,
  length-drop, get_or, get_elem?-eq-get_or, ◌<◌, length-take,
}
use jlu_drcom_win.Protocol.Types.{Bytes}

infixl 5 ◌>>=◌
abbrev pub ◌>>=◌ {ℓ κ} : {A : Type ℓ} {B : Type κ} → Option A → (A → Option B) → Option B
none >>= f = none
some a >>= f = f a

pub bind_assoc {ℓ} :
    {A B C : Type ℓ} (m : Option A) (f : A → Option B) (g : B → Option C)
    → (m >>= f >>= g) ≡ (m >>= λ a. f a >>= g)
bind_assoc none f g = refl
bind_assoc (some a) f g = refl

pub bind-some {ℓ} : {A : Type ℓ} (m : Option A) → (m >>= λ a. some a) ≡ m
bind-some none = refl
bind-some (some a) = refl

abbrev pub make_bytes : ℕ → Bytes
make_bytes n = replicate n 0

-- packet[lo:hi], where the bounds are known to hold.
abbrev pub slice : ℕ → ℕ → Bytes → Bytes
slice lo hi p = take (hi - lo) (drop lo p)

-- The built-in copy(dst, src): as many bytes as both have.
abbrev pub overwrite : Bytes → Bytes → Bytes
overwrite [] src = []
overwrite (d ∷ dst) [] = d ∷ dst
overwrite (d ∷ dst) (s ∷ src) = s ∷ overwrite dst src

-- copy(packet[lo:hi], src)
unfoldable pub copy_to : ℕ → ℕ → Bytes → Bytes → Option Bytes
copy_to lo hi src p =
    if leb lo hi && leb hi (length p)
    then some (take lo p ++ (overwrite (slice lo hi p) src ++ drop hi p))
    else none

-- packet[i] = b
abbrev pub put : ℕ → ℕ → Bytes → Option Bytes
put i b p = copy_to i (i + 1) (b ∷ []) p

-- copyFixed(packet[lo:hi], src), whose `dst` has hi - lo bytes
unfoldable pub copy_fixed : ℕ → ℕ → Bytes → Bytes → Option Bytes
copy_fixed lo hi src p = copy_to lo hi (take (min (hi - lo) (length src)) src) p

overwrite-take :
    (n : ℕ) (dst src : Bytes)
    → min (length dst) (length src) ≤ n
    → overwrite dst (take n src) ≡ overwrite dst src
overwrite-take n [] src h = refl
overwrite-take zero (d ∷ dst) [] h = refl
overwrite-take (suc n) (d ∷ dst) [] h = refl
overwrite-take zero (d ∷ dst) (s ∷ src) h = absurd (omega arith)
overwrite-take (suc n) (d ∷ dst) (s ∷ src) h = ap (◌∷◌ s) (overwrite-take n dst src (omega arith))

pub overwrite_full : (dst src : Bytes) → length dst ≡ length src → overwrite dst src ≡ src
overwrite_full [] [] e = refl
overwrite_full [] (s ∷ src) e = absurd (omega arith)
overwrite_full (d ∷ dst) [] e = absurd (omega arith)
overwrite_full (d ∷ dst) (s ∷ src) e = ap (◌∷◌ s) (overwrite_full dst src (omega arith))

-- copyFixed is the copy itself, which stops at the end of the field.
pub copy_fixed_lem : (lo hi : ℕ) (src p : Bytes) → copy_fixed lo hi src p ≡ copy_to lo hi src p
unfolding copy_fixed copy_to
copy_fixed_lem lo hi src p =
    ap
      (λ bytes.
        if leb lo hi && leb hi (length p) then some (take lo p ++ (bytes ++ drop hi p)) else none)
      (overwrite-take (min (hi - lo) (length src)) (slice lo hi p) src (omega (arith, width)))
  where
    width : length (slice lo hi p) ≡ min (hi - lo) (length (drop lo p))
    width = length-take (hi - lo) (drop lo p)

-- io.ReadFull on a reader with states `R`: so many bytes and the next state, or an error.
abbrev pub Reader : Type 0 → Type 0
Reader R = ℕ → R → Option (Bytes × R)

-- mustReadRandom(rng, packet[lo:hi])
abbrev pub must_read_random : {R : Type 0} → Reader R → R → ℕ → ℕ → Bytes → Option (Bytes × R)
must_read_random read rng lo hi p =
    read (hi - lo) rng >>= λ drawn. copy_to lo hi drawn.0 p >>= λ q. some (q, drawn.1)

-- packet[i] and packet[lo:hi] as they are read
abbrev pub index : Bytes → ℕ → Option ℕ
index p i = get_elem? p i

unfoldable pub slice? : ℕ → ℕ → Bytes → Option Bytes
slice? lo hi p = if leb lo hi && leb hi (length p) then some (slice lo hi p) else none

-- The byte at an index below the length.
abbrev pub byte : Bytes → ℕ → ℕ
byte p i = get_or p i 0

-- An index below the length does not panic.
pub index-byte : (p : Bytes) (i : ℕ) → i < length p → index p i ≡ some (byte p i)
index-byte p i h = get_elem?-eq-get_or p i 0 h

pub slice?-slice :
    (lo hi : ℕ) (p : Bytes) → lo ≤ hi → hi ≤ length p → slice? lo hi p ≡ some (slice lo hi p)
unfolding slice?
slice?-slice lo hi p h k = ground arith

pub length-slice :
    (lo hi : ℕ) (p : Bytes) → lo ≤ hi → hi ≤ length p → length (slice lo hi p) ≡ hi - lo
length-slice lo hi p h k = omega (arith, length-take (hi - lo) (drop lo p), length-drop lo p)

-- Comparisons of one byte, and the connectives of Go, whose right side waits for the left one.
abbrev pub index_eq : Bytes → ℕ → ℕ → Option Bool
index_eq p i b = index p i >>= λ x. some (x == b)

abbrev pub index_ne : Bytes → ℕ → ℕ → Option Bool
index_ne p i b = index p i >>= λ x. some (not (x == b))

infixr 30 ◌or◌
infixr 35 ◌and◌
abbrev pub ◌or◌ : Option Bool → Option Bool → Option Bool
none or b = none
some true or b = some true
some false or b = b

abbrev pub ◌and◌ : Option Bool → Option Bool → Option Bool
none and b = none
some true and b = b
some false and b = some false

-- A builder is brought into the form of `Layout.copies` by these.
pub ruleset copy_rules = (bind_assoc, bind-some, copy_fixed_lem)
