-- ===== src/Runner/Login.antt =====
-- Login of internal/runner/runner.go, on every outcome of its two exchanges.
pub mod Draw
pub mod Second
use jlu_drcom_win.Runner.Login.Second.{Accepted, Refused, second, second-Holds}
use jlu_drcom_win.Base.{
  ℕ, ◌≡◌, ◌⊎◌, inl, inr, ap, ◌∙◌, none, Bool, length, List, [], ◌∷◌, ◌++◌, append_assoc,
}
use jlu_drcom_win.Protocol.Types.{Bytes, Session}
use jlu_drcom_win.Protocol.Challenge.{build_login_challenge, parse_login_challenge_response}
use jlu_drcom_win.Protocol.Challenge.Replies.{parse_challenges-outcome}
use jlu_drcom_win.Protocol.Response.{response_matcher}
use jlu_drcom_win.Config.Types.{Config, protocol_config}
use jlu_drcom_win.Transport.Failure.{Phase, Failure, panicked}
use jlu_drcom_win.Runner.World.{
  State, login_challenge, logging_in, Env, World, Context, session_context, set_state, ◌>>=◌,
}
use jlu_drcom_win.Runner.Rules.{Holds, Holds-weaken}
use jlu_drcom_win.Runner.Exchange.{Same}
use jlu_drcom_win.Runner.Steps.{login}
use jlu_drcom_win.Runner.Salt.{Salted, Unsalted, challenge_drawn, salt_rule}
use jlu_drcom_win.Runner.Login.Draw.{IsNew}

module _ {E : Type 0} (env : Env E) (md5 : Bytes → Bytes) (cfg : Config) (Crash : Type 0)
    (exchange_crash : (ctx : Context) (p : Bytes) (file : Bool) (e : E)
      → (env.exchange ctx p (response_matcher p file) e).0 ≡ panicked
      → Crash)
    (read_crash : (n : ℕ) (e : E) → env.read n e ≡ none → Crash) where
  -- A world whose state and reports are as said, and the session unchanged.
  pub record Marked (w : World E) (state : State) (states : List State) (v : World E) : Type 0 where
    pub now : v.state ≡ state
    pub reported : v.reported ≡ w.reported ++ states
    pub session : v.session ≡ w.session

  -- Between the two exchanges.
  abbrev pub marked : State → World E → World E
  marked s w = record w { state = s; reported = w.reported ++ s ∷ [] }

  -- The first exchange, from the world marked LoginChallenge.
  abbrev pub GotSalt : World E → Bytes → World E → Type 0
  GotSalt w salt v =
      Salted env md5 cfg Crash exchange_crash session_context Phase.login_challenge
        (build_login_challenge (protocol_config cfg).auth_version env.read)
        parse_login_challenge_response (marked login_challenge w) salt v

  abbrev pub GotNoSalt : World E → Failure → World E → Type 0
  GotNoSalt w e v =
      Unsalted env md5 cfg Crash exchange_crash session_context Phase.login_challenge
        (build_login_challenge (protocol_config cfg).auth_version env.read)
        parse_login_challenge_response (marked login_challenge w) e v

  -- A login that failed without a salt, and one that failed with a salt.
  abbrev pub LoginFailed : World E → Failure → World E → Type 0
  LoginFailed w e v =
      (GotNoSalt w e v × Marked w login_challenge (login_challenge ∷ []) v)
      ⊎ ((salt : Bytes) × (u : World E) × GotSalt w salt u
          × Refused env md5 cfg Crash exchange_crash read_crash salt (marked logging_in u) e v
          × Marked w logging_in (login_challenge ∷ logging_in ∷ []) v)

  -- A login that succeeded: a salt, and then a session.
  abbrev pub LoggedIn : World E → Session → World E → Type 0
  LoggedIn w s v =
      Marked w logging_in (login_challenge ∷ logging_in ∷ []) v
      × IsNew s
      × (salt : Bytes) × (u : World E) × GotSalt w salt u
      × Accepted env md5 cfg Crash exchange_crash read_crash salt (marked logging_in u) s v

  then_second :
      (salt : Bytes) (w v : World E)
      → GotSalt w salt v
      → Same (marked login_challenge w) v
      → length salt ≡ 4
      → Holds
          (LoggedIn w)
          (LoginFailed w)
          Crash
          (second env md5 cfg Crash exchange_crash read_crash salt (marked logging_in v))
  then_second salt w v g s h =
      Holds-weaken _ _ (LoggedIn w) (LoginFailed w) Crash _
        (second-Holds env md5 cfg Crash exchange_crash read_crash salt (marked logging_in v) h)
        (λ a u r. (both u r.1.0, r.1.1, salt, v, g, r.0))
        (λ e u r. inr (salt, v, g, r.0, both u r.1))
    where
      both :
          (u : World E)
          → Same (marked logging_in v) u
          → Marked w logging_in (login_challenge ∷ logging_in ∷ []) u
      both u r = record {
        now = r.state;
        reported =
            r.reported
            ∙ ap (λ l. l ++ logging_in ∷ []) s.reported
            ∙ append_assoc w.reported (login_challenge ∷ []) (logging_in ∷ []);
        session = r.session ∙ s.session;
      }

  -- Login, on every outcome of its two exchanges. It reports LoginChallenge and then, once there is
  -- a salt, LoggingIn, and changes the runner in nothing else. There is a salt exactly when the first
  -- exchange, under LoginChallenge, returned a reply in which the parser found it. Login succeeds only
  -- when the second one then returned, under LoggingIn, a reply that the parser accepted; the session
  -- is the parser's, is well formed and has counted no heartbeat. It fails with the error of the
  -- exchange or of the parser that failed (where a rejection of the second is of the account). It
  -- panics only if the exchanger or the random reader does.
  pub login-Holds : (w : World E) → Holds (LoggedIn w) (LoginFailed w) Crash (login env md5 cfg w)
  unfolding login ◌>>=◌ set_state
  login-Holds w =
      salt_rule env md5 cfg Crash exchange_crash (LoggedIn w) (LoginFailed w) session_context
        Phase.login_challenge (build_login_challenge (protocol_config cfg).auth_version env.read)
        0x02 parse_login_challenge_response
        (λ salt.
          set_state logging_in >>= λ _. second env md5 cfg Crash exchange_crash read_crash salt)
        (λ p. (parse_challenges-outcome p).0) (marked login_challenge w)
        (λ q. elim (challenge_drawn (protocol_config cfg).auth_version env.read w.env) [
          | inl h ↦ absurd (h.0 q)
          | inr h ↦ read_crash 2 w.env h
        ])
        (λ e v n s. inl (n, record { now = s.state; reported = s.reported; session = s.session }))
        (λ salt v g s. then_second salt w v g s.0 s.1)
