-- ===== src/Protocol/Challenge.antt =====
-- internal/protocol/challenge.go
use jlu_drcom_win.Base.{ℕ, List, [], ◌∷◌, Option, none, some, length, ltb, if◌then◌else◌}
use jlu_drcom_win.Protocol.Types.{
  Bytes, size_challenge, Result, ok, err, challenge_too_short, unexpected_challenge_type,
}
use jlu_drcom_win.Protocol.Buffer.{
  Reader, make_bytes, put, copy_to, must_read_random, index, index_ne, slice?, ◌or◌, ◌>>=◌,
}
pub mod Packets
pub mod Replies

unfoldable pub build_login_challenge : {R : Type 0} → Bytes → Reader R → R → Option (Bytes × R)
build_login_challenge auth_version read rng = do
  packet ← put 0 0x01 (make_bytes size_challenge)
  packet ← put 1 0x02 packet
  (packet, rng) ← must_read_random read rng 2 4 packet
  packet ← copy_to 4 6 auth_version packet
  some (packet, rng)

unfoldable pub build_logout_challenge : {R : Type 0} → Bytes → Reader R → R → Option (Bytes × R)
build_logout_challenge auth_version read rng = do
  packet ← put 0 0x01 (make_bytes size_challenge)
  packet ← put 1 0x03 packet
  (packet, rng) ← must_read_random read rng 2 4 packet
  packet ← copy_to 4 6 auth_version packet
  some (packet, rng)

parse_challenge_response : Bytes → ℕ → Option (Result Bytes)
parse_challenge_response packet subtype =
    if ltb (length packet) 8 then some (err (challenge_too_short (length packet))) else do
      unexpected ← index_ne packet 0 0x02 or index_ne packet 1 subtype
      first ← index packet 0
      second ← index packet 1
      salt ← slice? 4 8 packet
      some (if unexpected then err (unexpected_challenge_type first second) else ok salt)

unfoldable pub parse_login_challenge_response : Bytes → Option (Result Bytes)
unfolding parse_challenge_response
parse_login_challenge_response packet = parse_challenge_response packet 0x02

unfoldable pub parse_logout_challenge_response : Bytes → Option (Result Bytes)
unfolding parse_challenge_response
parse_logout_challenge_response packet = parse_challenge_response packet 0x03
