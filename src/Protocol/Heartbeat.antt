-- ===== src/Protocol/Heartbeat.antt =====
-- internal/protocol/heartbeat.go, and `validHeartbeat` of internal/protocol/response.go. The Unix
-- time is a natural number: the clock stands after 1970.
pub mod Packets
pub mod Valid
use jlu_drcom_win.Base.{
  ℕ, ◌+◌, ◌/◌, ◌%◌, List, [], ◌∷◌, ◌++◌, Option, none, some, length, ltb, not, ◌==◌, if◌then◌else◌,
  Bool, true, false,
}
use jlu_drcom_win.Protocol.Types.{
  Bytes, Config, Session, Result, ok, err, size_keep_alive_auth, size_keep_alive_heartbeat,
  invalid_keepalive_auth, invalid_heartbeat_step1, invalid_heartbeat,
}
use jlu_drcom_win.Protocol.Buffer.{
  Reader, make_bytes, overwrite, put, copy_to, must_read_random, index, index_ne, index_eq, slice?,
  ◌or◌, ◌>>=◌,
}
use jlu_drcom_win.Protocol.Crypto.{uint16, crc}

unfoldable pub build_keep_alive_auth : Session → ℕ → Option Bytes
build_keep_alive_auth session unix_time = do
  packet ← put 0 0xff (make_bytes size_keep_alive_auth)
  packet ← copy_to 1 17 session.md5_password packet
  packet ← copy_to 20 36 session.server_drcom_indicator packet
  packet ← put 36 (unix_time % 256) packet
  put 37 (unix_time / 256 % 256) packet

unfoldable pub parse_keep_alive_auth_response : Bytes → Option (Result (Unit {0}))
parse_keep_alive_auth_response packet = do
  invalid ←
      some (ltb (length packet) 72)
      or index_ne packet 0 0x07
      or index_ne packet 2 16
      or index_ne packet 3 0
      or index_ne packet 4 0x06
  some (if invalid then err invalid_keepalive_auth else ok tt)

unfoldable pub build_heartbeat_base :
    {R : Type 0} → Session → ℕ → Bytes → Reader R → R → Option (Bytes × R)
build_heartbeat_base session phase version read rng = do
  packet ← put 0 0x07 (make_bytes size_keep_alive_heartbeat)
  packet ← put 1 (session.heartbeat_count % 256) packet
  packet ← put 2 0x28 packet
  packet ← put 3 0x00 packet
  packet ← put 4 0x0b packet
  packet ← put 5 phase packet
  packet ← copy_to 6 8 version packet
  must_read_random read rng 8 12 packet

unfoldable pub build_first_heartbeat :
    {R : Type 0} → Config → Session → Reader R → R → Option (Bytes × R)
unfolding build_heartbeat_base
build_first_heartbeat config session read rng =
    build_heartbeat_base session 0x01 config.first_heartbeat_version read rng

unfoldable pub build_extra_heartbeat :
    {R : Type 0} → Config → Session → Reader R → R → Option (Bytes × R)
unfolding build_heartbeat_base
build_extra_heartbeat config session read rng = do
  (packet, rng) ← build_heartbeat_base session 0x01 config.extra_heartbeat_version read rng
  packet ← copy_to 16 20 session.heartbeat_token packet
  some (packet, rng)

unfoldable pub build_heartbeat_step1 :
    {R : Type 0} → Config → Session → Reader R → R → Option (Bytes × R)
unfolding build_heartbeat_base
build_heartbeat_step1 config session read rng = do
  (packet, rng) ← build_heartbeat_base session 0x01 config.keep_alive_version read rng
  packet ← copy_to 16 20 session.heartbeat_token packet
  some (packet, rng)

unfoldable pub build_heartbeat_step2 : Config → Session → Bytes → Option Bytes
build_heartbeat_step2 config session random_token = do
  packet ← put 0 0x07 (make_bytes size_keep_alive_heartbeat)
  packet ← put 1 (session.heartbeat_count % 256) packet
  packet ← put 2 0x28 packet
  packet ← put 3 0x00 packet
  packet ← put 4 0x0b packet
  packet ← put 5 0x03 packet
  packet ← copy_to 6 8 config.keep_alive_version packet
  packet ← copy_to 8 12 random_token packet
  packet ← copy_to 16 20 session.heartbeat_token packet
  prefix ← slice? 0 24 packet
  packet ← copy_to 24 28 (crc (prefix ++ config.ip)) packet
  copy_to 28 32 config.ip packet

unfoldable pub valid_heartbeat : Bytes → Option Bool
valid_heartbeat p = do
  invalid ←
      some (ltb (length p) 40)
      or index_ne p 0 0x07
      or index_ne p 4 0x0b
      or (do low ← index p 2; high ← index p 3; some (not (uint16 low high == length p)))
  if invalid then some false else index_eq p 5 0x02 or index_eq p 5 0x04 or index_eq p 5 0x06

unfoldable pub parse_heartbeat_step1_response : Bytes → Session → Option (Result Session)
parse_heartbeat_step1_response packet session = do
  valid ← valid_heartbeat packet
  invalid ←
      some (not valid)
      or index_ne packet 5 0x02
      or index_ne packet 1 (session.heartbeat_count % 256)
  if invalid then some (err invalid_heartbeat_step1) else do
    token ← slice? 16 20 packet
    some (ok (record session { heartbeat_token = overwrite session.heartbeat_token token }))

unfoldable pub parse_heartbeat_ack : Bytes → Option (Result (Unit {0}))
parse_heartbeat_ack packet = do
  valid ← valid_heartbeat packet
  some (if valid then ok tt else err invalid_heartbeat)
