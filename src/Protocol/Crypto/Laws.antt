-- ===== src/Protocol/Crypto/Laws.antt =====
-- The laws of crypto.go: what the masks undo, and how the sums treat the end of their input.
use jlu_drcom_win.Base.{
  ℕ, zero, suc, ◌+◌, ◌-◌, ◌*◌, ◌/◌, ◌%◌, ◌^◌, ◌≤◌, ◌<◌, ◌≡◌, refl, ap, ap₂, ◌∙◌, [], ◌∷◌, ◌++◌, map,
  bit_xor, length, replicate, All, arith, xor-xor, xor_comm, xor_lt_pow, take,
}
use jlu_drcom_win.Protocol.Types.{Bytes}
use jlu_drcom_win.Protocol.Crypto.{
  xor, ror_byte, ror, uint32, uint16, put_uint32, xor_chunks4, checksum, xor_chunks2, crc,
}

-- Every element is a byte.
abbrev pub AreBytes : Bytes → Type 0
AreBytes = All (λ b. b < 256)

pub length-xor : (a b : Bytes) (n : ℕ) → length (xor a b n) ≡ n
unfolding xor
length-xor a b zero = refl
length-xor (x ∷ a) (y ∷ b) (suc n) = ap suc (length-xor a b n)
length-xor [] b (suc n) = ap suc (length-xor [] b n)
length-xor (x ∷ a) [] (suc n) = ap suc (length-xor a [] n)

pub length-ror : (bytes : Bytes) → length (ror bytes) ≡ length bytes
unfolding ror
length-ror [] = refl
length-ror (b ∷ bytes) = ap suc (length-ror bytes)

-- Masking twice with the same key gives the bytes back, as far as both reach.
pub xor-xor_data :
    (a key : Bytes) (n : ℕ) → n ≤ length key → n ≤ length a → xor (xor a key n) key n ≡ take n a
unfolding xor
xor-xor_data a key zero h k = refl
xor-xor_data a [] (suc n) h k = absurd (omega arith)
xor-xor_data [] (x ∷ key) (suc n) h k = absurd (omega arith)
xor-xor_data (y ∷ a) (x ∷ key) (suc n) h k =
    ap₂ ◌∷◌ (xor-xor y x) (xor-xor_data a key n (omega arith) (omega arith))

pub xor-AreBytes : (a b : Bytes) (n : ℕ) → AreBytes a → AreBytes b → AreBytes (xor a b n)
unfolding xor
xor-AreBytes a b zero h k = tt
xor-AreBytes (x ∷ a) (y ∷ b) (suc n) h k = (xor_lt_pow 8 x y h.0 k.0, xor-AreBytes a b n h.1 k.1)
xor-AreBytes [] b (suc n) h k = (omega arith, xor-AreBytes [] b n h k)
xor-AreBytes (x ∷ a) [] (suc n) h k = (omega arith, xor-AreBytes a [] n h.1 k)

pub xor-xor_key :
    (key a : Bytes) (n : ℕ) → n ≤ length key → n ≤ length a → xor (xor key a n) key n ≡ take n a
unfolding xor
xor-xor_key key a zero h k = refl
xor-xor_key [] a (suc n) h k = absurd (omega arith)
xor-xor_key (x ∷ key) [] (suc n) h k = absurd (omega arith)
xor-xor_key (x ∷ key) (y ∷ a) (suc n) h k =
    ap₂ ◌∷◌ (ap (λ v. bit_xor v x) (xor_comm x y) ∙ xor-xor y x)
      (xor-xor_key key a n (omega arith) (omega arith))

-- Rotation of a byte to the right by three places.
abbrev pub unror_byte : ℕ → ℕ
unror_byte b = b / 8 + b % 8 * 32

-- On a list of bytes, ROR is undone by rotating each byte to the right by three places.
pub unror-ror : (bytes : Bytes) → AreBytes bytes → map unror_byte (ror bytes) ≡ bytes
unfolding ror ror_byte
unror-ror [] h = refl
unror-ror (b ∷ bytes) h = ap₂ ◌∷◌ (omega arith) (unror-ror bytes h.1)

-- Zeros up to a multiple of `n` bytes.
abbrev pub pad_to : ℕ → Bytes → Bytes
pad_to n bytes = bytes ++ replicate ((n - length bytes % n) % n) 0

xor_chunks4-pad_to :
    (sum : ℕ) (bytes : Bytes) → xor_chunks4 sum (pad_to 4 bytes) ≡ xor_chunks4 sum bytes
unfolding xor_chunks4
xor_chunks4-pad_to sum [] = refl
xor_chunks4-pad_to sum (a ∷ []) = refl
xor_chunks4-pad_to sum (a ∷ b ∷ []) = refl
xor_chunks4-pad_to sum (a ∷ b ∷ c ∷ []) = refl
xor_chunks4-pad_to sum (a ∷ b ∷ c ∷ d ∷ rest) =
    ap (λ k. xor_chunks4 (bit_xor sum (uint32 a b c d)) (rest ++ replicate k 0)) (omega arith)
    ∙ xor_chunks4-pad_to (bit_xor sum (uint32 a b c d)) rest

xor_chunks2-pad_to :
    (sum : ℕ) (bytes : Bytes) → xor_chunks2 sum (pad_to 2 bytes) ≡ xor_chunks2 sum bytes
unfolding xor_chunks2
xor_chunks2-pad_to sum [] = refl
xor_chunks2-pad_to sum (a ∷ []) = refl
xor_chunks2-pad_to sum (a ∷ b ∷ rest) =
    ap (λ k. xor_chunks2 (bit_xor sum (uint16 a b)) (rest ++ replicate k 0)) (omega arith)
    ∙ xor_chunks2-pad_to (bit_xor sum (uint16 a b)) rest

-- Checksum and CRC are those of their input padded with zeros to a multiple of four bytes, and of
-- two.
pub checksum-pad_to :
    (bytes : Bytes)
    → (checksum (pad_to 4 bytes) ≡ checksum bytes) × (crc (pad_to 2 bytes) ≡ crc bytes)
unfolding checksum crc
checksum-pad_to bytes = (
  ap (λ sum. put_uint32 (1968 * sum % 2 ^ 32)) (xor_chunks4-pad_to 1234 bytes),
  ap (λ sum. put_uint32 (711 * sum % 2 ^ 32)) (xor_chunks2-pad_to 0 bytes),
)
