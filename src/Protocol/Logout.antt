-- ===== src/Protocol/Logout.antt =====
-- internal/protocol/logout.go
pub mod Packet
use jlu_drcom_win.Base.{
  ℕ, ◌+◌, ◌%◌, List, [], ◌∷◌, ◌++◌, Option, none, some, length, ltb, leb, if◌then◌else◌,
}
use jlu_drcom_win.Protocol.Types.{
  Bytes, Config, Session, Result, ok, err, size_logout, invalid_logout,
}
use jlu_drcom_win.Protocol.Buffer.{make_bytes, put, copy_to, copy_fixed, index_ne, ◌or◌, ◌>>=◌}
use jlu_drcom_win.Protocol.Crypto.{xor}

abbrev pub logout_plain : Config → Session → Bytes
logout_plain config session = 0x06 ∷ 0x01 ∷ (session.logout_salt ++ config.password)

unfoldable pub build_logout_packet : (Bytes → Bytes) → Config → Session → Option Bytes
build_logout_packet md5 config session = do
  packet ← put 0 0x06 (make_bytes size_logout)
  packet ← put 1 0x01 packet
  packet ← put 2 0x00 packet
  packet ← put 3 ((length config.username + 20) % 256) packet
  let md5a = md5 (logout_plain config session)
  packet ← copy_to 4 20 md5a packet
  packet ← copy_fixed 20 56 config.username packet
  packet ← put 56 0x00 packet
  packet ← put 57 0x00 packet
  packet ← copy_to 58 64 (xor config.mac md5a 6) packet
  copy_to 64 80 session.server_drcom_indicator packet

unfoldable pub parse_logout_response : Bytes → Option (Result (Unit {0}))
parse_logout_response packet = do
  invalid ← some (ltb (length packet) 25) or some (leb 39 (length packet)) or index_ne packet 0 0x04
  some (if invalid then err invalid_logout else ok tt)
