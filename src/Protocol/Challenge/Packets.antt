-- ===== src/Protocol/Challenge/Packets.antt =====
-- What the challenge builders write and what the challenge parsers accept.
use jlu_drcom_win.Base.{ℕ, ◌≡◌, ◌∙◌, List, [], ◌∷◌, Option, some, arith}
use jlu_drcom_win.Protocol.Types.{Bytes}
use jlu_drcom_win.Protocol.Buffer.{Reader, ◌>>=◌, make_bytes, bind_assoc}
use jlu_drcom_win.Protocol.Layout.{Row, render, copies, copies-then}
use jlu_drcom_win.Protocol.Challenge.{build_login_challenge, build_logout_challenge}

-- The challenge table: marker, subtype, random bytes, version.
abbrev pub challenge_rows : ℕ → Bytes → Bytes → List Row
challenge_rows subtype drawn version =
    (0, 1, 0x01 ∷ []) ∷ (1, 2, subtype ∷ []) ∷ (2, 4, drawn) ∷ (4, 6, version) ∷ []

-- With two random bytes drawn, the challenges are the tables of their subtypes, 20 bytes long.
pub build_challenge-table :
    {R : Type 0} (version : Bytes) (read : Reader R) (rng next : R) (drawn : Bytes)
    → read 2 rng ≡ some (drawn, next)
    → (build_login_challenge version read rng
        ≡ some (render 0 20 (challenge_rows 0x02 drawn version), next))
      × (build_logout_challenge version read rng
          ≡ some (render 0 20 (challenge_rows 0x03 drawn version), next))
unfolding build_login_challenge build_logout_challenge
build_challenge-table {R} version read rng next drawn e = (
  login ∙ copies-then 20 (challenge_rows 0x02 drawn version) answer (omega arith),
  logout ∙ copies-then 20 (challenge_rows 0x03 drawn version) answer (omega arith),
)
  where
    answer : Bytes → Option (Bytes × R)
    answer p = some (p, next)

    login :
        build_login_challenge version read rng
        ≡ (copies (challenge_rows 0x02 drawn version) (make_bytes 20) >>= answer)
    login = rw e (simp bind_assoc)

    logout :
        build_logout_challenge version read rng
        ≡ (copies (challenge_rows 0x03 drawn version) (make_bytes 20) >>= answer)
    logout = rw e (simp bind_assoc)
