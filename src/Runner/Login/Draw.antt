-- ===== src/Runner/Login/Draw.antt =====
-- The drawing of a login packet, and the session that it leaves.
use jlu_drcom_win.Base.{
  ℕ, ◌≡◌, ◌≢◌, refl, sym, subst, ◌∙◌, Option, none, some, arith, length, [], ◌∷◌,
}
use jlu_drcom_win.Protocol.Types.{Bytes, Session, IsSession, Result, ok, err}
use jlu_drcom_win.Protocol.Types
use jlu_drcom_win.Protocol.Buffer.{overwrite}
use jlu_drcom_win.Protocol.Login.{md5a_plain, build_login_packet}
use jlu_drcom_win.Protocol.Login.Packet.{build_login_packet-table}
use jlu_drcom_win.Config.Types.{Config, protocol_config}
use jlu_drcom_win.Runner.World.{Env}
use jlu_drcom_win.Runner.Steps.{zero_session, login_packet}

length-overwrite : (d s : Bytes) → length (overwrite d s) ≡ length d
length-overwrite [] s = refl
length-overwrite (x ∷ d) [] = refl
length-overwrite (x ∷ d) (y ∷ s) = omega (arith, length-overwrite d s)

-- A session as a login makes it: well formed, and with no heartbeat.
abbrev pub IsNew : Session → Type 0
IsNew s = IsSession s × (s.heartbeat_count ≡ 0)

-- The builder leaves everything in the session but the digest.
login_session :
    {R : Type 0} (md5 : Bytes → Bytes) (config : Types.Config) (session : Session)
    (read : ℕ → R → Option (Bytes × R)) (rng next : R) (packet : Bytes) (s : Session)
    → build_login_packet md5 config session read rng ≡ some (packet, s, next)
    → s ≡ record session {
      md5_password = overwrite session.md5_password (md5 (md5a_plain config session));
    }
unfolding build_login_packet
login_session md5 config session read rng next packet s q = ground (arith, q)

abbrev pub salted_session : Bytes → Session
salted_session salt = record zero_session { login_salt = salt }

module _ {E : Type 0} (env : Env E) (md5 : Bytes → Bytes) (cfg : Config) where
  abbrev pub drawing : Bytes → E → Option ((Bytes × Session) × E)
  drawing salt rng =
      login_packet (build_login_packet md5 (protocol_config cfg) (salted_session salt) env.read rng)

  pub drawing-IsNew :
      (salt : Bytes) (rng e : E) (a : Bytes × Session)
      → length salt ≡ 4
      → drawing salt rng ≡ some (a, e)
      → IsNew a.1
  drawing-IsNew salt rng e a h =
      at_built (build_login_packet md5 (protocol_config cfg) (salted_session salt) env.read rng)
        refl
    where
      digest : Bytes
      digest =
          overwrite zero_session.md5_password
            (md5 (md5a_plain (protocol_config cfg) (salted_session salt)))

      fresh : Session
      fresh = record (salted_session salt) { md5_password = digest }

      fresh-IsNew : IsNew fresh
      fresh-IsNew = (
        record {
          login_salt = h;
          logout_salt = omega arith;
          md5_password = omega (
            arith,
            length-overwrite zero_session.md5_password
                (md5 (md5a_plain (protocol_config cfg) (salted_session salt))),
          );
          server_drcom_indicator = omega arith;
          heartbeat_token = omega arith;
          heartbeat_count = omega arith;
        },
        refl,
      )

      at_built :
          (r : Option (Bytes × Session × E))
          → build_login_packet md5 (protocol_config cfg) (salted_session salt) env.read rng ≡ r
          → login_packet r ≡ some (a, e)
          → IsNew a.1
      at_built none q p = ground (arith, p)
      at_built (some (packet, s, next)) q p =
          subst IsNew
            (sym (
                login_session md5 (protocol_config cfg) (salted_session salt) env.read rng next
                  packet s q)
              ∙ ground (arith, p))
            fresh-IsNew

  module _ (Crash : Type 0) (read_crash : (n : ℕ) (e : E) → env.read n e ≡ none → Crash) where
    pub drawing_crash : (salt : Bytes) (e : E) → length salt ≡ 4 → drawing salt e ≡ none → Crash
    drawing_crash salt e h = at_read (env.read 2 e) refl
      where
        at_read : (r : Option (Bytes × E)) → env.read 2 e ≡ r → drawing salt e ≡ none → Crash
        at_read none q p = read_crash 2 e q
        at_read (some (drawn, next)) q p = absurd (
            subst (λ o. login_packet o ≢ none)
              (sym (
                build_login_packet-table md5 (protocol_config cfg) (salted_session salt) env.read e
                  next drawn q h))
              (ground arith) p)
