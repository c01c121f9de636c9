-- ===== src/Protocol/Challenge/Replies.antt =====
-- What the challenge parsers return, on every datagram.
use jlu_drcom_win.Base.{ℕ, ◌≤◌, ◌<◌, ◌≡◌, ◌⊎◌, Option, some, length, arith}
use jlu_drcom_win.Protocol.Types.{
  Bytes, Result, ok, err, challenge_too_short, unexpected_challenge_type,
}
use jlu_drcom_win.Protocol.Buffer.{byte, index-byte, slice, slice?-slice}
use jlu_drcom_win.Protocol.Challenge.{
  parse_challenge_response, parse_login_challenge_response, parse_logout_challenge_response,
}

-- A reply that holds a salt for a challenge of the subtype.
abbrev pub IsSaltReply : ℕ → Bytes → Type 0
IsSaltReply subtype p = (8 ≤ length p) × (byte p 0 ≡ 0x02) × (byte p 1 ≡ subtype)

-- The outcomes of a parser of one subtype: the salt, or the error that names what is wrong.
abbrev pub SaltOutcome : ℕ → Bytes → Option (Result Bytes) → Type 0
SaltOutcome subtype p outcome =
    (IsSaltReply subtype p × (outcome ≡ some (ok (slice 4 8 p))))
    ⊎ ((length p < 8) × (outcome ≡ some (err (challenge_too_short (length p)))))
    ⊎ ((8 ≤ length p)
        × (¬ IsSaltReply subtype p)
        × (outcome ≡ some (err (unexpected_challenge_type (byte p 0) (byte p 1)))))

parse_challenge_cases :
    (subtype : ℕ) (p : Bytes) → SaltOutcome subtype p (parse_challenge_response p subtype)
unfolding parse_challenge_response
parse_challenge_cases subtype p = ground (arith, index-byte p 0, index-byte p 1, slice?-slice 4 8 p)

pub parse_challenges-outcome :
    (p : Bytes)
    → SaltOutcome 0x02 p (parse_login_challenge_response p)
      × SaltOutcome 0x03 p (parse_logout_challenge_response p)
unfolding parse_login_challenge_response parse_logout_challenge_response
parse_challenges-outcome p = (parse_challenge_cases 0x02 p, parse_challenge_cases 0x03 p)
