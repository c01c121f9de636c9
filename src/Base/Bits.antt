-- ===== src/Base/Bits.antt =====
-- Exclusive or on numbers: the law for the lowest digit, that it undoes itself, and its width.
use Prim.Native.Nat.{
  ℕ, zero, suc, ◌+◌, ◌*◌, ◌/◌, ◌%◌, ◌≤◌, ◌<◌, ◌^◌, digits, differ, bit_xor, bit_xor-bitwise,
}
use mathlib.Core.Path.{◌≡◌, refl, ap}
use native.Mathlib.Nat.{pow-suc}
use native.Mathlib.Omega.{arith}

-- The digits of an exclusive or, with `n` digits of the first number to go.
abbrev xor_digits : ℕ → ℕ → ℕ → ℕ
xor_digits n a b = digits (λ c. c) differ n a b

-- Any two counts that are large enough give the same digits.
xor_digits_count : (m n a b : ℕ) → a ≤ m → a ≤ n → xor_digits m a b ≡ xor_digits n a b
xor_digits_count zero zero a b h k = refl
xor_digits_count zero (suc n) zero b h k = refl
xor_digits_count (suc m) zero zero b h k = refl
xor_digits_count (suc m) (suc n) zero b h k = refl
xor_digits_count zero n (suc a) b h k = absurd (omega arith)
xor_digits_count (suc m) zero (suc a) b h k = absurd (omega arith)
xor_digits_count (suc m) (suc n) (suc a) b h k =
    rw (xor_digits_count m n (suc a / 2) (b / 2) (omega arith) (omega arith))

differ_digits : (x y : ℕ) → x < 2 → y < 2 → differ x y ≡ (x + y) % 2
differ_digits zero zero h k = refl
differ_digits zero (suc zero) h k = refl
differ_digits (suc zero) zero h k = refl
differ_digits (suc zero) (suc zero) h k = refl
differ_digits (suc (suc x)) y h k = absurd (omega arith)
differ_digits zero (suc (suc y)) h k = absurd (omega arith)
differ_digits (suc zero) (suc (suc y)) h k = absurd (omega arith)

zero-xor : (b : ℕ) → bit_xor 0 b ≡ b
zero-xor b = bit_xor-bitwise 0 b

-- The lowest digit of an exclusive or, and the rest.
xor_step : (a b : ℕ) → bit_xor a b ≡ bit_xor (a / 2) (b / 2) * 2 + (a % 2 + b % 2) % 2
xor_step zero b = omega (arith, zero-xor b, zero-xor (b / 2))
xor_step (suc a) b = omega (
  arith,
  bit_xor-bitwise (suc a) b,
  bit_xor-bitwise (suc a / 2) (b / 2),
  xor_digits_count a (suc a / 2) (suc a / 2) (b / 2) (omega arith) (omega arith),
  differ_digits (suc a % 2) (b % 2) (omega arith) (omega arith),
)

xor-xor_count : (n a b : ℕ) → a ≤ n → b ≤ n → bit_xor (bit_xor a b) b ≡ a
xor-xor_count zero zero zero h k = refl
xor-xor_count zero (suc a) b h k = absurd (omega arith)
xor-xor_count zero zero (suc b) h k = absurd (omega arith)
xor-xor_count (suc n) a b h k = omega (
  arith,
  xor_step (bit_xor a b) b,
  xor_step a b,
  ap (λ (x : ℕ). bit_xor x (b / 2)) half,
  xor-xor_count n (a / 2) (b / 2) (omega arith) (omega arith),
)
  where
    half : bit_xor a b / 2 ≡ bit_xor (a / 2) (b / 2)
    half = omega (arith, xor_step a b)

pub xor-xor : (a b : ℕ) → bit_xor (bit_xor a b) b ≡ a
xor-xor a b = xor-xor_count (a + b) a b (omega arith) (omega arith)

xor_comm_count : (n a b : ℕ) → a ≤ n → b ≤ n → bit_xor a b ≡ bit_xor b a
xor_comm_count zero zero zero h k = refl
xor_comm_count zero (suc a) b h k = absurd (omega arith)
xor_comm_count zero zero (suc b) h k = absurd (omega arith)
xor_comm_count (suc n) a b h k = omega (
  arith,
  xor_step a b,
  xor_step b a,
  xor_comm_count n (a / 2) (b / 2) (omega arith) (omega arith),
)

pub xor_comm : (a b : ℕ) → bit_xor a b ≡ bit_xor b a
xor_comm a b = xor_comm_count (a + b) a b (omega arith) (omega arith)

pub xor_lt_pow : (k a b : ℕ) → a < 2 ^ k → b < 2 ^ k → bit_xor a b < 2 ^ k
xor_lt_pow zero zero zero h l = omega arith
xor_lt_pow zero (suc a) b h l = absurd (omega arith)
xor_lt_pow zero zero (suc b) h l = absurd (omega arith)
xor_lt_pow (suc k) a b h l = omega (
  arith,
  xor_step a b,
  pow-suc 2 k,
  xor_lt_pow k (a / 2) (b / 2) (omega (arith, pow-suc 2 k)) (omega (arith, pow-suc 2 k)),
)
