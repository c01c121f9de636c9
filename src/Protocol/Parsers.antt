-- ===== src/Protocol/Parsers.antt =====
-- What the parsers of the replies return, on every datagram.
use jlu_drcom_win.Base.{◌≡◌, ◌⊎◌, Option, some, length, arith}
use jlu_drcom_win.Protocol.Types.{
  Bytes, Session, Error, Result, ok, err, invalid_heartbeat, invalid_keepalive_auth, invalid_logout,
}
use jlu_drcom_win.Protocol.Challenge.{
  parse_login_challenge_response, parse_logout_challenge_response,
}
use jlu_drcom_win.Protocol.Challenge.Replies.{SaltOutcome, parse_challenges-outcome}
use jlu_drcom_win.Protocol.Login.{parse_login_response}
use jlu_drcom_win.Protocol.Login.Replies.{LoginOutcome, parse_login_response_cases}
use jlu_drcom_win.Protocol.Heartbeat.{
  parse_heartbeat_step1_response, parse_heartbeat_ack, parse_keep_alive_auth_response,
}
use jlu_drcom_win.Protocol.Heartbeat.Valid.{
  IsHeartbeat, valid_heartbeat_cases, IsKeepAliveReply, parse_keep_alive_auth_cases, Step1Outcome,
  parse_heartbeat_step1_cases,
}
use jlu_drcom_win.Protocol.Logout.{parse_logout_response}
use jlu_drcom_win.Protocol.Response.Accepts.{IsLogoutReply, parse_logout_cases}

-- The outcomes of a parser that only tests: success exactly for such replies, and else its error.
abbrev pub TestOutcome : Type 0 → Error → Option (Result (Unit {0})) → Type 0
TestOutcome IsReply e outcome =
    (IsReply × (outcome ≡ some (ok tt))) ⊎ ((¬ IsReply) × (outcome ≡ some (err e)))

parse_heartbeat_ack_cases :
    (p : Bytes) → TestOutcome (IsHeartbeat p) invalid_heartbeat (parse_heartbeat_ack p)
unfolding parse_heartbeat_ack
parse_heartbeat_ack_cases p = ground (arith, valid_heartbeat_cases p)

-- On every datagram, with room for 16 and 4 bytes in the session, none of the seven parsers panics.
-- The one of a challenge returns the salt exactly for replies of its subtype, and else the error for
-- the length or for the type that it met. ParseLoginResponse takes a first byte 05 for a rejection at
-- any length; then come the errors for a short reply and for another type; any other reply succeeds,
-- and changes the server's indicator in the session and nothing else. ParseHeartbeatStep1Response
-- accepts exactly the replies to step 1 of the session's count and stores their token, and refuses any
-- other datagram. ParseHeartbeatAck, ParseKeepAliveAuthResponse and ParseLogoutResponse accept exactly
-- the replies of their form.
pub parsers-outcome :
    (p : Bytes) (session : Session)
    → length session.server_drcom_indicator ≡ 16
    → length session.heartbeat_token ≡ 4
    → SaltOutcome 0x02 p (parse_login_challenge_response p)
      × SaltOutcome 0x03 p (parse_logout_challenge_response p)
      × LoginOutcome p session (parse_login_response p session)
      × Step1Outcome p session (parse_heartbeat_step1_response p session)
      × TestOutcome (IsHeartbeat p) invalid_heartbeat (parse_heartbeat_ack p)
      × TestOutcome (IsKeepAliveReply p) invalid_keepalive_auth (parse_keep_alive_auth_response p)
      × TestOutcome (IsLogoutReply p) invalid_logout (parse_logout_response p)
parsers-outcome p session i t = (
  (parse_challenges-outcome p).0,
  (parse_challenges-outcome p).1,
  parse_login_response_cases p session i,
  parse_heartbeat_step1_cases p session t,
  parse_heartbeat_ack_cases p,
  ground (arith, parse_keep_alive_auth_cases p),
  ground (arith, parse_logout_cases p),
)
