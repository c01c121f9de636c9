-- ===== src/Protocol/Heartbeat/Valid.antt =====
-- The replies that `valid_heartbeat` and the parsers of this component accept.
use jlu_drcom_win.Base.{◌%◌, ◌≤◌, ◌≡◌, ◌⊎◌, true, false, Option, some, length, arith}
use jlu_drcom_win.Protocol.Types.{
  Bytes, Session, Result, ok, err, invalid_heartbeat_step1, invalid_keepalive_auth,
}
use jlu_drcom_win.Protocol.Buffer.{
  byte, index-byte, slice, slice?-slice, length-slice, overwrite, overwrite_full,
}
use jlu_drcom_win.Protocol.Crypto.{uint16}
use jlu_drcom_win.Protocol.Heartbeat.{
  valid_heartbeat, parse_keep_alive_auth_response, parse_heartbeat_step1_response,
}

-- A heartbeat reply: 40 bytes or more, the type, the opcode, its own length, a phase of the server.
abbrev pub IsHeartbeat : Bytes → Type 0
IsHeartbeat p =
    (40 ≤ length p)
    × (byte p 0 ≡ 0x07)
    × (byte p 4 ≡ 0x0b)
    × (uint16 (byte p 2) (byte p 3) ≡ length p)
    × ((byte p 5 ≡ 0x02) ⊎ (byte p 5 ≡ 0x04) ⊎ (byte p 5 ≡ 0x06))

pub valid_heartbeat_cases :
    (p : Bytes)
    → ((valid_heartbeat p ≡ some true) × IsHeartbeat p)
      ⊎ ((valid_heartbeat p ≡ some false) × (¬ IsHeartbeat p))
unfolding valid_heartbeat
valid_heartbeat_cases p =
    ground (arith, index-byte p 0, index-byte p 2, index-byte p 3, index-byte p 4, index-byte p 5)

abbrev pub IsKeepAliveReply : Bytes → Type 0
IsKeepAliveReply p =
    (72 ≤ length p) × (byte p 0 ≡ 0x07) × (byte p 2 ≡ 16) × (byte p 3 ≡ 0) × (byte p 4 ≡ 0x06)

pub parse_keep_alive_auth_cases :
    (p : Bytes)
    → ((parse_keep_alive_auth_response p ≡ some (ok tt)) × IsKeepAliveReply p)
      ⊎ ((parse_keep_alive_auth_response p ≡ some (err invalid_keepalive_auth))
          × (¬ IsKeepAliveReply p))
unfolding parse_keep_alive_auth_response
parse_keep_alive_auth_cases p =
    ground (arith, index-byte p 0, index-byte p 2, index-byte p 3, index-byte p 4)

-- A reply to step 1 of the session's current count.
abbrev pub IsStep1Reply : Bytes → Session → Type 0
IsStep1Reply p session =
    IsHeartbeat p × (byte p 5 ≡ 0x02) × (byte p 1 ≡ session.heartbeat_count % 256)

token-overwrite :
    (p : Bytes) (session : Session)
    → length session.heartbeat_token ≡ 4
    → 40 ≤ length p
    → overwrite session.heartbeat_token (slice 16 20 p) ≡ slice 16 20 p
token-overwrite p session e h =
    overwrite_full session.heartbeat_token (slice 16 20 p)
      (omega (arith, length-slice 16 20 p (omega arith) (omega arith)))

-- The outcomes of ParseHeartbeatStep1Response: the session with the token, or the error.
abbrev pub Step1Outcome : Bytes → Session → Option (Result Session) → Type 0
Step1Outcome p session outcome =
    (IsStep1Reply p session
      × (outcome ≡ some (ok (record session { heartbeat_token = slice 16 20 p }))))
    ⊎ ((¬ IsStep1Reply p session) × (outcome ≡ some (err invalid_heartbeat_step1)))

pub parse_heartbeat_step1_cases :
    (p : Bytes) (session : Session)
    → length session.heartbeat_token ≡ 4
    → Step1Outcome p session (parse_heartbeat_step1_response p session)
unfolding parse_heartbeat_step1_response
parse_heartbeat_step1_cases p session e = ground (
  arith,
  valid_heartbeat_cases p,
  index-byte p 1,
  index-byte p 5,
  slice?-slice 16 20 p,
  token-overwrite p session e,
)
