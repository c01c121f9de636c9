-- ===== src/Protocol/Login/Replies.antt =====
-- What the parser of login replies returns, on every datagram.
use jlu_drcom_win.Base.{◌≤◌, ◌<◌, ◌≡◌, ◌≢◌, ◌⊎◌, Option, some, length, arith}
use jlu_drcom_win.Protocol.Types.{
  Bytes, Session, Result, ok, err, login_rejected, login_too_short, unexpected_login_type,
}
use jlu_drcom_win.Protocol.Buffer.{
  byte, index-byte, slice, slice?-slice, length-slice, overwrite, overwrite_full,
}
use jlu_drcom_win.Protocol.Login.{parse_login_response}

indicator-overwrite :
    (p : Bytes) (session : Session)
    → length session.server_drcom_indicator ≡ 16
    → 39 ≤ length p
    → overwrite session.server_drcom_indicator (slice 23 39 p) ≡ slice 23 39 p
indicator-overwrite p session e h =
    overwrite_full session.server_drcom_indicator (slice 23 39 p)
      (omega (arith, length-slice 23 39 p (omega arith) (omega arith)))

-- The outcomes of ParseLoginResponse: a rejection, the errors for a short reply and for another
-- type, and the session with the server's indicator.
abbrev pub LoginOutcome : Bytes → Session → Option (Result Session) → Type 0
LoginOutcome p session outcome =
    ((1 ≤ length p) × (byte p 0 ≡ 0x05) × (outcome ≡ some (err login_rejected)))
    ⊎ ((length p < 39) × (byte p 0 ≢ 0x05) × (outcome ≡ some (err (login_too_short (length p)))))
    ⊎ ((39 ≤ length p)
        × (byte p 0 ≢ 0x05)
        × (byte p 0 ≢ 0x04)
        × (outcome ≡ some (err (unexpected_login_type (byte p 0)))))
    ⊎ ((39 ≤ length p)
        × (byte p 0 ≡ 0x04)
        × (outcome ≡ some (ok (record session { server_drcom_indicator = slice 23 39 p }))))

pub parse_login_response_cases :
    (p : Bytes) (session : Session)
    → length session.server_drcom_indicator ≡ 16
    → LoginOutcome p session (parse_login_response p session)
unfolding parse_login_response
parse_login_response_cases p session e =
    ground (arith, index-byte p 0, slice?-slice 23 39 p, indicator-overwrite p session e)
