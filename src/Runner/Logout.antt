-- ===== src/Runner/Logout.antt =====
-- Logout of internal/runner/runner.go, on every outcome of its two exchanges.
use jlu_drcom_win.Base.{
  ℕ, ◌≡◌, refl, sym, ap, subst, ◌∙◌, ◌⊎◌, inl, inr, none, some, Bool, false, length, List, [], ◌∷◌,
  ◌++◌, append_assoc,
}
use jlu_drcom_win.Protocol.Types.{Bytes, Session, IsSession}
use jlu_drcom_win.Protocol.Challenge.{build_logout_challenge, parse_logout_challenge_response}
use jlu_drcom_win.Protocol.Challenge.Replies.{parse_challenges-outcome}
use jlu_drcom_win.Protocol.Logout.{build_logout_packet}
use jlu_drcom_win.Protocol.Logout.Packet.{build_logout_packet-table}
use jlu_drcom_win.Protocol.Response.{response_matcher}
use jlu_drcom_win.Config.Types.{Config, protocol_config}
use jlu_drcom_win.Transport.Failure.{Phase, Failure, Outcome, done, failed, panicked}
use jlu_drcom_win.Runner.World.{
  State, logging_out, stopped, Env, World, Act, Context, logout_context, build_pure, set_state,
  get_session, set_session, ◌>>=◌,
}
use jlu_drcom_win.Runner.Rules.{Holds, bind-Holds, Holds-weaken, Holds-and, Holds-self}
use jlu_drcom_win.Runner.Exchange.{Same, exchange-Holds}
use jlu_drcom_win.Runner.Steps.{exchange, logout}
use jlu_drcom_win.Runner.Salt.{Salted, Unsalted, challenge_drawn, salt_rule}

-- What a logout leaves: the state, the reports, and a well-formed session of the same count.
pub record Left {E : Type 0} (w : World E) (state : State) (states : List State) (v : World E)
    : Type 0 where
  pub now : v.state ≡ state
  pub reported : v.reported ≡ w.reported ++ states
  pub valid : IsSession v.session
  pub count : v.session.heartbeat_count ≡ w.session.heartbeat_count

module _ {E : Type 0} (env : Env E) (md5 : Bytes → Bytes) (cfg : Config) (Crash : Type 0)
    (exchange_crash : (ctx : Context) (p : Bytes) (file : Bool) (e : E)
      → (env.exchange ctx p (response_matcher p file) e).0 ≡ panicked
      → Crash)
    (read_crash : (n : ℕ) (e : E) → env.read n e ≡ none → Crash) where
  -- The state and the reports after setState.
  abbrev marked : World E → World E
  marked w = record w { state = logging_out; reported = w.reported ++ logging_out ∷ [] }

  -- The first exchange, from the world marked LoggingOut.
  abbrev pub GotSalt : World E → Bytes → World E → Type 0
  GotSalt w salt v =
      Salted env md5 cfg Crash exchange_crash logout_context Phase.logout_challenge
        (build_logout_challenge (protocol_config cfg).auth_version env.read)
        parse_logout_challenge_response (marked w) salt v

  abbrev pub GotNoSalt : World E → Failure → World E → Type 0
  GotNoSalt w e v =
      Unsalted env md5 cfg Crash exchange_crash logout_context Phase.logout_challenge
        (build_logout_challenge (protocol_config cfg).auth_version env.read)
        parse_logout_challenge_response (marked w) e v

  -- The world with the salt in the session.
  abbrev pub salted : World E → Bytes → World E
  salted v salt = record v { session = record v.session { logout_salt = salt } }

  -- The outcome of the second exchange, with the packet for that session.
  abbrev pub Answers : World E → Outcome Bytes → World E → Type 0
  Answers v o u =
      (packet : Bytes) × (build_logout_packet md5 (protocol_config cfg) v.session ≡ some packet)
      × (exchange env md5 cfg logout_context Phase.logout packet false v ≡ (o, u))

  -- A logout that failed, in the first exchange or in the second one.
  abbrev pub LogoutFailed : World E → Failure → World E → Type 0
  LogoutFailed w e v =
      (GotNoSalt w e v
        ⊎ ((salt : Bytes) × (u : World E) × GotSalt w salt u
            × Answers (salted u salt) (failed e) v))
      × Left w logging_out (logging_out ∷ []) v

  -- A logout that succeeded, in both.
  abbrev pub LoggedOut : World E → Unit {0} → World E → Type 0
  LoggedOut w x v =
      ((salt : Bytes) × (u : World E) × (p : Bytes) × (t : World E) × GotSalt w salt u
        × Answers (salted u salt) (done p) t
        × (v ≡ record t { state = stopped; reported = t.reported ++ stopped ∷ [] }))
      × Left w stopped (logging_out ∷ stopped ∷ []) v

  Left-Same :
      (w v u : World E) (state : State) (states : List State)
      → Left w state states v
      → Same v u
      → Left w state states u
  Left-Same w v u state states l s = record {
    now = s.state ∙ l.now;
    reported = s.reported ∙ l.reported;
    valid = subst IsSession (sym s.session) l.valid;
    count = ap (λ t. t.heartbeat_count) s.session ∙ l.count;
  }

  started :
      (w v : World E)
      → IsSession w.session
      → Same (marked w) v
      → Left w logging_out (logging_out ∷ []) v
  started w v h s =
      Left-Same w (marked w) v logging_out (logging_out ∷ [])
        (record { now = refl; reported = refl; valid = h; count = refl }) s

  with_salt :
      (w v : World E) (salt : Bytes)
      → length salt ≡ 4
      → Left w logging_out (logging_out ∷ []) v
      → Left w logging_out
          (logging_out ∷ [])
          (record v { session = record v.session { logout_salt = salt } })
  with_salt w v salt h l = record {
    now = l.now;
    reported = l.reported;
    valid = record {
      login_salt = l.valid.login_salt;
      logout_salt = h;
      md5_password = l.valid.md5_password;
      server_drcom_indicator = l.valid.server_drcom_indicator;
      heartbeat_token = l.valid.heartbeat_token;
      heartbeat_count = l.valid.heartbeat_count;
    };
    count = l.count;
  }

  ended :
      (w v : World E)
      → Left w logging_out (logging_out ∷ []) v
      → Left w stopped
          (logging_out ∷ stopped ∷ [])
          (record v { state = stopped; reported = v.reported ++ stopped ∷ [] })
  ended w v l = record {
    now = refl;
    reported =
        ap (λ states. states ++ stopped ∷ []) l.reported
        ∙ append_assoc w.reported (logging_out ∷ []) (stopped ∷ []);
    valid = l.valid;
    count = l.count;
  }

  -- The second exchange, and the last state.
  abbrev second : Session → Act E (Unit {0})
  second s = build_pure (build_logout_packet md5 (protocol_config cfg) s) >>= λ packet.
      exchange env md5 cfg logout_context Phase.logout packet false >>= λ p. set_state stopped

  module _ (w u : World E) (salt : Bytes) (g : GotSalt w salt u) where
    sent-Left :
        (packet : Bytes)
        → Left w logging_out (logging_out ∷ []) (salted u salt)
        → Holds
            (λ p t.
              (exchange env md5 cfg logout_context Phase.logout packet false (salted u salt)
                ≡ (done p, t))
              × Left w logging_out (logging_out ∷ []) t)
            (λ e t.
              (exchange env md5 cfg logout_context Phase.logout packet false (salted u salt)
                ≡ (failed e, t))
              × Left w logging_out (logging_out ∷ []) t)
            Crash
            (exchange env md5 cfg logout_context Phase.logout packet false (salted u salt))
    sent-Left packet l =
        Holds-and _ _ (λ p t. Left w logging_out (logging_out ∷ []) t)
          (λ e t. Left w logging_out (logging_out ∷ []) t) Crash _ (Holds-self _)
          (Holds-weaken _ _ (λ p t. Left w logging_out (logging_out ∷ []) t)
            (λ e t. Left w logging_out (logging_out ∷ []) t) Crash _
            (exchange-Holds env md5 cfg Crash exchange_crash logout_context packet false
              (salted u salt) Phase.logout)
            (λ p t h. Left-Same w (salted u salt) t logging_out (logging_out ∷ []) l h.0)
            (λ e t h. Left-Same w (salted u salt) t logging_out (logging_out ∷ []) l h))

    sent_stopping :
        (packet : Bytes)
        → build_logout_packet md5 (protocol_config cfg) (salted u salt).session ≡ some packet
        → Left w logging_out (logging_out ∷ []) (salted u salt)
        → Holds (LoggedOut w) (LogoutFailed w) Crash (
            (exchange env md5 cfg logout_context Phase.logout packet false >>= λ p.
            set_state stopped)
              (salted u salt))
    unfolding set_state
    sent_stopping packet b l =
        bind-Holds _ _ (LoggedOut w) (LogoutFailed w) Crash _ _ (salted u salt) (sent-Left packet l)
          (λ e t h. (inr (salt, u, g, (packet, b, h.0)), h.1))
          (λ p t h. ((salt, u, p, t, g, (packet, b, h.0), refl), ended w t h.1))

    second-Holds :
        Left w logging_out (logging_out ∷ []) (salted u salt)
        → Holds
            (LoggedOut w)
            (LogoutFailed w)
            Crash
            (second (salted u salt).session (salted u salt))
    unfolding build_pure ◌>>=◌
    second-Holds l =
        rw (build_logout_packet-table md5 (protocol_config cfg) (salted u salt).session) (
          sent_stopping _
            (build_logout_packet-table md5 (protocol_config cfg) (salted u salt).session) l)

  -- Logout, from a well-formed session, on every outcome of its two exchanges. It reports LoggingOut,
  -- and Stopped exactly when it succeeds: when the first exchange returned a reply with a salt, and the
  -- second one, with the packet for the session with that salt, returned a reply too. Otherwise it
  -- fails with the error of the exchange or of the parser that failed, and the runner's state stays
  -- LoggingOut. It keeps the session well formed, and its count. It panics only if the exchanger or the
  -- random reader does.
  pub logout-Holds :
      (w : World E)
      → IsSession w.session
      → Holds (LoggedOut w) (LogoutFailed w) Crash (logout env md5 cfg w)
  unfolding logout ◌>>=◌ set_state get_session set_session
  logout-Holds w h =
      salt_rule env md5 cfg Crash exchange_crash (LoggedOut w) (LogoutFailed w) logout_context
        Phase.logout_challenge (build_logout_challenge (protocol_config cfg).auth_version env.read)
        0x03 parse_logout_challenge_response
        (λ salt. get_session >>= λ s. set_session (record s { logout_salt = salt }) >>= λ _.
          second (record s { logout_salt = salt }))
        (λ p. (parse_challenges-outcome p).1) (marked w)
        (λ q. elim (challenge_drawn (protocol_config cfg).auth_version env.read w.env) [
          | inl n ↦ absurd (n.1 q)
          | inr n ↦ read_crash 2 w.env n
        ])
        (λ e v n s. (inl n, started w v h s))
        (λ salt v g s. second-Holds w v salt g (with_salt w v salt s.1 (started w v h s.0)))
