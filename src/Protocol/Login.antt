-- ===== src/Protocol/Login.antt =====
-- internal/protocol/login.go. MD5 (crypto/md5) and the random reader are parameters.
pub mod Packet
pub mod Recover
pub mod Replies
use jlu_drcom_win.Base.{
  ℕ, ◌+◌, ◌-◌, ◌*◌, ◌/◌, ◌%◌, List, [], ◌∷◌, ◌++◌, Option, none, some, length, take, min, ltb, leb,
  ◌==◌, if◌then◌else◌, Bool, true, false, ◌&&◌,
}
use jlu_drcom_win.Protocol.Types.{
  Bytes, Config, Session, Result, ok, err, login_rejected, login_too_short, unexpected_login_type,
}
use jlu_drcom_win.Protocol.Buffer.{
  Reader, make_bytes, overwrite, put, copy_to, copy_fixed, must_read_random, index, index_ne,
  index_eq, slice?, ◌or◌, ◌and◌, ◌>>=◌,
}
use jlu_drcom_win.Protocol.Crypto.{xor, ror, checksum}

abbrev pub drcom_indicator : Bytes
drcom_indicator = 0x44 ∷ 0x72 ∷ 0x43 ∷ 0x4f ∷ 0x4d ∷ 0x00 ∷ 0xcf ∷ 0x07 ∷ []

abbrev pub unknown_login_indicator : Bytes
unknown_login_indicator =
    0x66 ∷ 0x34 ∷ 0x37 ∷ 0x64 ∷ 0x62 ∷ 0x62 ∷ 0x35 ∷ 0x39 ∷ 0x63 ∷ 0x33 ∷ 0x34 ∷ 0x35 ∷ 0x39 ∷ 0x30
    ∷ 0x31 ∷ 0x62 ∷ 0x34 ∷ 0x33 ∷ 0x31 ∷ 0x31 ∷ 0x39 ∷ 0x32 ∷ 0x62 ∷ 0x62 ∷ 0x31 ∷ 0x66 ∷ 0x62
    ∷ 0x66 ∷ 0x63 ∷ 0x66 ∷ 0x64 ∷ 0x33 ∷ 0x33 ∷ 0x66 ∷ 0x34 ∷ 0x33 ∷ 0x34 ∷ 0x32 ∷ 0x31 ∷ 0x31 ∷ []

abbrev pub ror_len : Bytes → ℕ
ror_len password = min (length password) 16

-- loginSize
unfoldable pub login_size : Bytes → ℕ
login_size password = if ltb 0 (length password) then 334 + (length password - 1) / 4 * 4 else 334

-- paddingLen
unfoldable pub padding_len : Bytes → ℕ
padding_len password = if ltb 0 (length password) then (4 - length password % 4) % 4 else 0

abbrev pub md5a_plain : Config → Session → Bytes
md5a_plain config session = 0x03 ∷ 0x01 ∷ (session.login_salt ++ config.password)

unfoldable pub md5b_plain : Config → Session → Option Bytes
md5b_plain config session = do
  let n = length config.password
  plain ← put 0 0x01 (make_bytes (1 + n + 4 + 4))
  plain ← copy_to 1 (1 + n + 4 + 4) config.password plain
  copy_to (1 + n) (1 + n + 4 + 4) session.login_salt plain

-- The fields up to the client's address.
unfoldable pub write_identity : (Bytes → Bytes) → Config → Session → Bytes → Option Bytes
write_identity md5 config session packet = do
  packet ← put 0 0x03 packet
  packet ← put 1 0x01 packet
  packet ← put 2 0x00 packet
  packet ← put 3 ((length config.username + 20) % 256) packet
  let md5a = md5 (md5a_plain config session)
  packet ← copy_to 4 20 md5a packet
  packet ← copy_fixed 20 56 config.username packet
  packet ← put 56 0x00 packet
  packet ← put 57 0x00 packet
  packet ← copy_to 58 64 (xor config.mac md5a 6) packet
  plain ← md5b_plain config session
  packet ← copy_to 64 80 (md5 plain) packet
  packet ← put 80 0x01 packet
  copy_to 81 85 config.ip packet

-- From the digest of what is written so far to the masked password.
unfoldable pub write_host : (Bytes → Bytes) → Config → Session → Bytes → Option Bytes
write_host md5 config session packet = do
  prefix ← slice? 0 97 packet
  packet ← copy_to 97 105 (take 8 (md5 (prefix ++ 0x14 ∷ 0x00 ∷ 0x07 ∷ 0x0b ∷ []))) packet
  packet ← put 105 0x01 packet
  packet ← copy_fixed 110 142 config.host_name packet
  packet ← copy_to 142 146 config.primary_dns packet
  packet ← copy_to 146 150 config.dhcp_server packet
  packet ← put 181 0x01 packet
  packet ← copy_to 182 190 drcom_indicator packet
  packet ← copy_to 190 192 config.auth_version packet
  packet ← copy_fixed 192 246 config.os_info packet
  packet ← copy_to 246 286 unknown_login_indicator packet
  packet ← copy_to 310 312 config.auth_version packet
  packet ← put 313 (length config.password % 256) packet
  let n = ror_len config.password
  let md5a = md5 (md5a_plain config session)
  packet ← copy_to 314 (314 + n) (ror (xor md5a config.password n)) packet
  packet ← put (314 + n) 0x02 packet
  put (314 + n + 1) 0x0c packet

abbrev pub checksum_plain : Config → Bytes → Bytes
checksum_plain config prefix = prefix ++ (0x01 ∷ 0x26 ∷ 0x07 ∷ 0x11 ∷ 0x00 ∷ 0x00 ∷ config.mac)

-- The checksum and the address of the adapter.
unfoldable pub write_trailer : Config → Bytes → Option Bytes
write_trailer config packet = do
  let n = ror_len config.password
  prefix ← slice? 0 (316 + n) packet
  packet ← copy_to (316 + n) (316 + n + 4) (checksum (checksum_plain config prefix)) packet
  copy_to (322 + n) (322 + n + 6) config.mac packet

-- The random bytes at the end, where they fit.
unfoldable pub write_random : {R : Type 0} → Config → Reader R → R → Bytes → Option (Bytes × R)
write_random config read rng packet =
    let offset = 328 + ror_len config.password + padding_len config.password in
    if leb (offset + 2) (length packet)
    then must_read_random read rng offset (offset + 2) packet
    else some (packet, rng)

-- BuildLoginPacket writes the digest into the caller's session as well.
unfoldable pub build_login_packet :
    {R : Type 0} → (Bytes → Bytes) → Config → Session → Reader R → R → Option (Bytes × Session × R)
build_login_packet md5 config session read rng = do
  packet ← write_identity md5 config session (make_bytes (login_size config.password))
  let digest = overwrite session.md5_password (md5 (md5a_plain config session))
  let session' = record session { md5_password = digest }
  packet ← write_host md5 config session packet
  packet ← write_trailer config packet
  (packet, rng) ← write_random config read rng packet
  some (packet, session', rng)

-- ParseLoginResponse: the indicator of the server goes into the session.
unfoldable pub parse_login_response : Bytes → Session → Option (Result Session)
parse_login_response packet session = do
  refused ← some (ltb 0 (length packet)) and index_eq packet 0 0x05
  if refused
      then some (err login_rejected)
      else if ltb (length packet) 39
      then some (err (login_too_short (length packet)))
      else do
        first ← index packet 0
        indicator ← slice? 23 39 packet
        some (
            if first == 0x04
            then ok (record session {
              server_drcom_indicator = overwrite session.server_drcom_indicator indicator;
            })
            else err (unexpected_login_type first))
