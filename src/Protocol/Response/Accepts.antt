-- ===== src/Protocol/Response/Accepts.antt =====
-- Which replies the matcher accepts, as docs/DEVELOPMENT.md tabulates them.
use jlu_drcom_win.Base.{ℕ, ◌≤◌, ◌<◌, ◌≡◌, ◌≢◌, ◌⊎◌, Bool, true, false, some, length, arith}
use jlu_drcom_win.Protocol.Types.{Bytes, ok, err, rejected, invalid_logout}
use jlu_drcom_win.Protocol.Buffer.{byte, index-byte}
use jlu_drcom_win.Protocol.Heartbeat.Valid.{
  IsHeartbeat, valid_heartbeat_cases, IsKeepAliveReply, parse_keep_alive_auth_cases,
}
use jlu_drcom_win.Protocol.Logout.{parse_logout_response}
use jlu_drcom_win.Protocol.Response.{match_heartbeat, match_request, response_matcher}

abbrev pub IsChallengeReply : Bytes → Bytes → Type 0
IsChallengeReply request p =
    (2 ≤ length request) × (8 ≤ length p) × (byte p 0 ≡ 0x02) × (byte p 1 ≡ byte request 1)

abbrev pub IsLoginReply : Bytes → Type 0
IsLoginReply p = (39 ≤ length p) × (byte p 0 ≡ 0x04)

abbrev pub IsLogoutReply : Bytes → Type 0
IsLogoutReply p = (25 ≤ length p) × (length p < 39) × (byte p 0 ≡ 0x04)

-- A heartbeat reply of the request's count, in the phase that answers the request's.
abbrev pub IsHeartbeatReply : Bytes → Bool → Bytes → Type 0
IsHeartbeatReply request allow_file p =
    (8 ≤ length request)
    × IsHeartbeat p
    × (byte p 1 ≡ byte request 1)
    × (((byte request 5 ≡ 0x03) × (byte p 5 ≡ 0x04))
        ⊎ ((byte request 5 ≢ 0x03) × (byte p 5 ≡ 0x02))
        ⊎ ((byte request 5 ≢ 0x03) × (allow_file ≡ true) × (byte p 5 ≡ 0x06)))

-- A reply that fits the type of the request.
abbrev pub Fits : ℕ → Bytes → Bool → Bytes → Type 0
Fits kind request allow_file p =
    ((kind ≡ 0x01) × IsChallengeReply request p)
    ⊎ ((kind ≡ 0x03) × IsLoginReply p)
    ⊎ ((kind ≡ 0x06) × IsLogoutReply p)
    ⊎ ((kind ≡ 0xff) × IsKeepAliveReply p)
    ⊎ ((kind ≡ 0x07) × IsHeartbeatReply request allow_file p)

pub parse_logout_cases :
    (p : Bytes)
    → ((parse_logout_response p ≡ some (ok tt)) × IsLogoutReply p)
      ⊎ ((parse_logout_response p ≡ some (err invalid_logout)) × (¬ IsLogoutReply p))
unfolding parse_logout_response
parse_logout_cases p = ground (arith, index-byte p 0)

match_heartbeat_cases :
    (request p : Bytes) (allow_file : Bool)
    → ((match_heartbeat request allow_file p ≡ some true) × IsHeartbeatReply request allow_file p)
      ⊎ ((match_heartbeat request allow_file p ≡ some false)
          × (¬ IsHeartbeatReply request allow_file p))
unfolding match_heartbeat
match_heartbeat_cases request p allow_file = ground (
  arith,
  valid_heartbeat_cases p,
  index-byte p 1,
  index-byte p 5,
  index-byte request 1,
  index-byte request 5,
)

match_request_cases :
    (kind : ℕ) (request p : Bytes) (allow_file : Bool)
    → 1 ≤ length p
    → ((match_request kind request allow_file p ≡ some true) × Fits kind request allow_file p)
      ⊎ ((match_request kind request allow_file p ≡ some false)
          × (¬ Fits kind request allow_file p))
unfolding match_request
match_request_cases kind request p allow_file h = ground (
  arith,
  match_heartbeat_cases request p allow_file,
  parse_keep_alive_auth_cases p,
  parse_logout_cases p,
  index-byte p 0,
  index-byte p 1,
  index-byte request 1,
)

-- The matcher accepts a reply.
abbrev pub IsAccepted : Bytes → Bool → Bytes → Type 0
IsAccepted request allow_file p =
    (1 ≤ length p)
    × (1 ≤ length request)
    × (byte p 0 ≢ 0x05)
    × Fits (byte request 0) request allow_file p

-- The server rejects a request.
abbrev pub IsRejection : Bytes → Bytes → Type 0
IsRejection request p = (1 ≤ length p) × (1 ≤ length request) × (byte p 0 ≡ 0x05)

-- On every request and every datagram the matcher returns without a panic: it accepts exactly the
-- replies that fit the request, reports exactly the rejections, and ignores anything else.
pub response_matcher_cases :
    (request p : Bytes) (allow_file : Bool)
    → ((response_matcher request allow_file p ≡ some (ok true)) × IsAccepted request allow_file p)
      ⊎ ((response_matcher request allow_file p ≡ some (err rejected)) × IsRejection request p)
      ⊎ ((response_matcher request allow_file p ≡ some (ok false))
          × (¬ IsAccepted request allow_file p)
          × (¬ IsRejection request p))
unfolding response_matcher
response_matcher_cases request p allow_file = ground (
  arith,
  match_request_cases (byte request 0) request p allow_file,
  index-byte p 0,
  index-byte request 0,
)
