-- ===== src/Protocol/Response/Phases.antt =====
-- Replies across phases: none is accepted for two requests of different phases, and an accepted one
-- is parsed without an error.
use jlu_drcom_win.Base.{◌%◌, ◌≡◌, ◌≢◌, ◌⊎◌, Bool, true, false, some, length, arith}
use jlu_drcom_win.Protocol.Types.{Bytes, Session, ok}
use jlu_drcom_win.Protocol.Buffer.{byte, slice}
use jlu_drcom_win.Protocol.Challenge.{
  parse_login_challenge_response, parse_logout_challenge_response,
}
use jlu_drcom_win.Protocol.Challenge.Replies.{parse_challenges-outcome}
use jlu_drcom_win.Protocol.Login.{parse_login_response}
use jlu_drcom_win.Protocol.Login.Replies.{parse_login_response_cases}
use jlu_drcom_win.Protocol.Heartbeat.{parse_heartbeat_step1_response}
use jlu_drcom_win.Protocol.Heartbeat.Valid.{parse_heartbeat_step1_cases}
use jlu_drcom_win.Protocol.Response.{response_matcher}
use jlu_drcom_win.Protocol.Response.Accepts.{IsAccepted, response_matcher_cases}

pub accepted :
    (request p : Bytes) (allow_file : Bool)
    → response_matcher request allow_file p ≡ some (ok true)
    → IsAccepted request allow_file p
accepted request p allow_file h = ground (arith, response_matcher_cases request p allow_file)

-- Two requests of one phase: one type; for challenges one subtype; for heartbeats one count, and
-- both or neither of them step 2.
abbrev pub SamePhase : Bytes → Bytes → Type 0
SamePhase r q =
    (byte r 0 ≡ byte q 0)
    × ((byte r 0 ≢ 0x01) ⊎ (byte r 1 ≡ byte q 1))
    × ((byte r 0 ≢ 0x07)
        ⊎ ((byte r 1 ≡ byte q 1)
            × (((byte r 5 ≡ 0x03) × (byte q 5 ≡ 0x03)) ⊎ ((byte r 5 ≢ 0x03) × (byte q 5 ≢ 0x03)))))

-- A reply that is accepted for two requests shows that they are of one phase.
pub accepted-SamePhase :
    (r q p : Bytes) (f g : Bool)
    → response_matcher r f p ≡ some (ok true)
    → response_matcher q g p ≡ some (ok true)
    → SamePhase r q
accepted-SamePhase r q p f g a b = ground (arith, accepted r p f, accepted q p g)

-- The parser of the subtype (2 for the login, 3 for the logout).
challenge-parses :
    (request p : Bytes)
    → response_matcher request false p ≡ some (ok true)
    → byte request 0 ≡ 0x01
    → ((byte request 1 ≢ 0x02) ⊎ (parse_login_challenge_response p ≡ some (ok (slice 4 8 p))))
      × ((byte request 1 ≢ 0x03) ⊎ (parse_logout_challenge_response p ≡ some (ok (slice 4 8 p))))
challenge-parses request p h e =
    ground (arith, accepted request p false h, parse_challenges-outcome p)

-- The server's indicator.
login-parses :
    (request p : Bytes) (session : Session)
    → length session.server_drcom_indicator ≡ 16
    → response_matcher request false p ≡ some (ok true)
    → byte request 0 ≡ 0x03
    → parse_login_response p session
      ≡ some (ok (record session { server_drcom_indicator = slice 23 39 p }))
login-parses request p session i h e =
    ground (arith, accepted request p false h, parse_login_response_cases p session i)

-- The server's token.
pub step1-parses :
    (request p : Bytes) (session : Session)
    → length session.heartbeat_token ≡ 4
    → response_matcher request false p ≡ some (ok true)
    → byte request 0 ≡ 0x07
    → byte request 5 ≡ 0x01
    → byte request 1 ≡ session.heartbeat_count % 256
    → parse_heartbeat_step1_response p session
      ≡ some (ok (record session { heartbeat_token = slice 16 20 p }))
step1-parses request p session t h e k c =
    ground (arith, accepted request p false h, parse_heartbeat_step1_cases p session t)

-- What the matcher accepts, the parsers accept too, if the session has room for 16 and 4 bytes: for
-- a challenge, the one of its subtype (2 for the login, 3 for the logout) takes the salt from [4:8)
-- of the reply; for a login request, ParseLoginResponse takes the server's indicator from [23:39);
-- and for a heartbeat of step 1 with the session's count, its parser takes the token from [16:20).
pub accepted-parses :
    (request p : Bytes) (session : Session)
    → length session.server_drcom_indicator ≡ 16
    → length session.heartbeat_token ≡ 4
    → response_matcher request false p ≡ some (ok true)
    → ((byte request 0 ≢ 0x01)
        ⊎ (((byte request 1 ≢ 0x02) ⊎ (parse_login_challenge_response p ≡ some (ok (slice 4 8 p))))
            × ((byte request 1 ≢ 0x03)
                ⊎ (parse_logout_challenge_response p ≡ some (ok (slice 4 8 p))))))
      × ((byte request 0 ≢ 0x03)
          ⊎ (parse_login_response p session
              ≡ some (ok (record session { server_drcom_indicator = slice 23 39 p }))))
      × ((byte request 0 ≢ 0x07)
          ⊎ (byte request 5 ≢ 0x01)
          ⊎ (byte request 1 ≢ session.heartbeat_count % 256)
          ⊎ (parse_heartbeat_step1_response p session
              ≡ some (ok (record session { heartbeat_token = slice 16 20 p }))))
accepted-parses request p session i t h = (challenge, login, step1)
  where
    challenge :
        (byte request 0 ≢ 0x01)
        ⊎ (((byte request 1 ≢ 0x02) ⊎ (parse_login_challenge_response p ≡ some (ok (slice 4 8 p))))
            × ((byte request 1 ≢ 0x03)
                ⊎ (parse_logout_challenge_response p ≡ some (ok (slice 4 8 p)))))
    challenge = ground (arith, challenge-parses request p h)

    login :
        (byte request 0 ≢ 0x03)
        ⊎ (parse_login_response p session
            ≡ some (ok (record session { server_drcom_indicator = slice 23 39 p })))
    login = ground (arith, login-parses request p session i h)

    step1 :
        (byte request 0 ≢ 0x07)
        ⊎ (byte request 5 ≢ 0x01)
        ⊎ (byte request 1 ≢ session.heartbeat_count % 256)
        ⊎ (parse_heartbeat_step1_response p session
            ≡ some (ok (record session { heartbeat_token = slice 16 20 p })))
    step1 = ground (arith, step1-parses request p session t h)
