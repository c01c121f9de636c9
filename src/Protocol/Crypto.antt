-- ===== src/Protocol/Crypto.antt =====
-- internal/protocol/crypto.go. MD5 is the standard library's: a parameter of its users.
use jlu_drcom_win.Base.{ℕ, zero, suc, ◌+◌, ◌*◌, ◌/◌, ◌%◌, ◌^◌, List, [], ◌∷◌, map, bit_xor}
use jlu_drcom_win.Protocol.Types.{Bytes}
pub mod Laws

-- XOR(a, b, outLen) for a length of at least 0: zeros behind the shorter of the two.
unfoldable pub xor : Bytes → Bytes → ℕ → Bytes
xor a b zero = []
xor (x ∷ a) (y ∷ b) (suc n) = bit_xor x y ∷ xor a b n
xor [] b (suc n) = 0 ∷ xor [] b n
xor (x ∷ a) [] (suc n) = 0 ∷ xor a [] n

-- byte((b << 3) + (b >> 5)), in byte arithmetic.
unfoldable pub ror_byte : ℕ → ℕ
ror_byte b = ((b * 8) % 256 + b / 32) % 256

unfoldable pub ror : Bytes → Bytes
unfolding ror_byte
ror bytes = map ror_byte bytes

-- binary.LittleEndian.Uint32 of four bytes, Uint16 of two, and PutUint32.
abbrev pub uint32 : ℕ → ℕ → ℕ → ℕ → ℕ
uint32 a b c d = a + b * 2 ^ 8 + c * 2 ^ 16 + d * 2 ^ 24

abbrev pub uint16 : ℕ → ℕ → ℕ
uint16 a b = a + b * 2 ^ 8

abbrev pub put_uint32 : ℕ → Bytes
put_uint32 n = (n % 256) ∷ (n / 2 ^ 8 % 256) ∷ (n / 2 ^ 16 % 256) ∷ (n / 2 ^ 24 % 256) ∷ []

-- The loop of Checksum: four bytes a round, the last chunk padded with zeros.
unfoldable pub xor_chunks4 : ℕ → Bytes → ℕ
xor_chunks4 sum [] = sum
xor_chunks4 sum (a ∷ []) = bit_xor sum (uint32 a 0 0 0)
xor_chunks4 sum (a ∷ b ∷ []) = bit_xor sum (uint32 a b 0 0)
xor_chunks4 sum (a ∷ b ∷ c ∷ []) = bit_xor sum (uint32 a b c 0)
xor_chunks4 sum (a ∷ b ∷ c ∷ d ∷ rest) = xor_chunks4 (bit_xor sum (uint32 a b c d)) rest

unfoldable pub checksum : Bytes → Bytes
unfolding xor_chunks4
checksum bytes = put_uint32 (1968 * xor_chunks4 1234 bytes % 2 ^ 32)

-- The loop of CRC: two bytes a round.
unfoldable pub xor_chunks2 : ℕ → Bytes → ℕ
xor_chunks2 sum [] = sum
xor_chunks2 sum (a ∷ []) = bit_xor sum (uint16 a 0)
xor_chunks2 sum (a ∷ b ∷ rest) = xor_chunks2 (bit_xor sum (uint16 a b)) rest

unfoldable pub crc : Bytes → Bytes
unfolding xor_chunks2
crc bytes = put_uint32 (711 * xor_chunks2 0 bytes % 2 ^ 32)
