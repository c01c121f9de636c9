-- ===== src/Tests/Replies.antt =====
-- The theorems on replies, on sample requests and replies.
use jlu_drcom_win.Base.{◌%◌, ◌≡◌, ◌≢◌, ◌⊎◌, refl, true, false, some}
use jlu_drcom_win.Protocol.Types.{
  ok, err, rejected, invalid_heartbeat, invalid_keepalive_auth, invalid_logout,
}
use jlu_drcom_win.Protocol.Buffer.{byte, slice}
use jlu_drcom_win.Protocol.Challenge.{
  parse_login_challenge_response, parse_logout_challenge_response,
}
use jlu_drcom_win.Protocol.Challenge.Replies.{SaltOutcome}
use jlu_drcom_win.Protocol.Login.{parse_login_response}
use jlu_drcom_win.Protocol.Heartbeat.{
  parse_heartbeat_step1_response, valid_heartbeat, parse_heartbeat_ack,
  parse_keep_alive_auth_response,
}
use jlu_drcom_win.Protocol.Response.{response_matcher, match_request, match_heartbeat}
use jlu_drcom_win.Protocol.Response.Accepts.{
  IsLogoutReply, IsAccepted, IsRejection, response_matcher_cases,
}
use jlu_drcom_win.Protocol.Response.Phases.{SamePhase, accepted-SamePhase, accepted-parses}
use jlu_drcom_win.Protocol.Parsers.{TestOutcome, parsers-outcome}
use jlu_drcom_win.Protocol.Logout.{parse_logout_response}
use jlu_drcom_win.Protocol.Login.Replies.{LoginOutcome}
use jlu_drcom_win.Protocol.Heartbeat.Valid.{IsHeartbeat, IsKeepAliveReply, Step1Outcome}
use jlu_drcom_win.Tests.Samples.{
  session, challenge, salt_reply, login_request, login_reply, step1, step1_reply,
}

parsers-outcome_example :
    SaltOutcome 0x02 login_reply (parse_login_challenge_response login_reply)
    × SaltOutcome 0x03 login_reply (parse_logout_challenge_response login_reply)
    × LoginOutcome login_reply session (parse_login_response login_reply session)
    × Step1Outcome login_reply session (parse_heartbeat_step1_response login_reply session)
    × TestOutcome (IsHeartbeat login_reply) invalid_heartbeat (parse_heartbeat_ack login_reply)
    × TestOutcome
        (IsKeepAliveReply login_reply)
        invalid_keepalive_auth
        (parse_keep_alive_auth_response login_reply)
    × TestOutcome (IsLogoutReply login_reply) invalid_logout (parse_logout_response login_reply)
parsers-outcome_example = parsers-outcome login_reply session refl refl

response_matcher_cases_example :
    ((response_matcher step1 false step1_reply ≡ some (ok true))
      × IsAccepted step1 false step1_reply)
    ⊎ ((response_matcher step1 false step1_reply ≡ some (err rejected))
        × IsRejection step1 step1_reply)
    ⊎ ((response_matcher step1 false step1_reply ≡ some (ok false))
        × (¬ IsAccepted step1 false step1_reply)
        × (¬ IsRejection step1 step1_reply))
response_matcher_cases_example = response_matcher_cases step1 step1_reply false

challenge-accepts : response_matcher challenge false salt_reply ≡ some (ok true)
unfolding response_matcher match_request
challenge-accepts = refl

login-accepts : response_matcher login_request false login_reply ≡ some (ok true)
unfolding response_matcher match_request
login-accepts = refl

step1-accepts : response_matcher step1 false step1_reply ≡ some (ok true)
unfolding response_matcher match_request match_heartbeat valid_heartbeat
step1-accepts = refl

first-accepts : response_matcher step1 true step1_reply ≡ some (ok true)
unfolding response_matcher match_request match_heartbeat valid_heartbeat
first-accepts = refl

accepted-SamePhase_example : SamePhase step1 step1
accepted-SamePhase_example =
    accepted-SamePhase step1 step1 step1_reply false true step1-accepts first-accepts

accepted-parses_example :
    ((byte step1 0 ≢ 0x01)
      ⊎ (((byte step1 1 ≢ 0x02)
            ⊎ (parse_login_challenge_response step1_reply ≡ some (ok (slice 4 8 step1_reply))))
          × ((byte step1 1 ≢ 0x03)
              ⊎ (parse_logout_challenge_response step1_reply ≡ some (ok (slice 4 8 step1_reply))))))
    × ((byte step1 0 ≢ 0x03)
        ⊎ (parse_login_response step1_reply session
            ≡ some (ok (record session { server_drcom_indicator = slice 23 39 step1_reply }))))
    × ((byte step1 0 ≢ 0x07)
        ⊎ (byte step1 5 ≢ 0x01)
        ⊎ (byte step1 1 ≢ session.heartbeat_count % 256)
        ⊎ (parse_heartbeat_step1_response step1_reply session
            ≡ some (ok (record session { heartbeat_token = slice 16 20 step1_reply }))))
accepted-parses_example = accepted-parses step1 step1_reply session refl refl step1-accepts
