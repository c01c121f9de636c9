-- ===== src/Runner/Steps.antt =====
-- internal/runner/runner.go: the steps of one session.
use jlu_drcom_win.Base.{
  ℕ, zero, suc, ◌+◌, ◌%◌, ◌^◌, ℤ, pos, negsuc, [], ◌∷◌, Option, none, some, Bool, true, false, ◌||◌,
  ◌==◌, if◌then◌else◌, ltb_ℤ, ◌++◌,
}
use jlu_drcom_win.Protocol.Types.{Bytes, Session, Result, ok, err}
use jlu_drcom_win.Protocol.Types
use jlu_drcom_win.Protocol.Buffer.{slice?, make_bytes}
use jlu_drcom_win.Protocol.Challenge.{
  build_login_challenge, build_logout_challenge, parse_login_challenge_response,
  parse_logout_challenge_response,
}
use jlu_drcom_win.Protocol.Login.{build_login_packet, parse_login_response}
use jlu_drcom_win.Protocol.Heartbeat.{
  build_keep_alive_auth, build_first_heartbeat, build_extra_heartbeat, build_heartbeat_step1,
  build_heartbeat_step2, parse_heartbeat_step1_response,
}
use jlu_drcom_win.Protocol.Logout.{build_logout_packet}
use jlu_drcom_win.Protocol.Response.{response_matcher}
use jlu_drcom_win.Config.Types.{Config, protocol_config}
use jlu_drcom_win.Transport.Failure.{
  Phase, Failure, parse, unexpected_response, bad_interval, authentication_rejected, in_phase,
  is_rejected, Outcome, done, failed, panicked,
}
use jlu_drcom_win.Transport.Retry.{retry_exchange}
use jlu_drcom_win.Runner.World.{
  State, login_challenge, logging_in, online, logging_out, stopped, failing, Context,
  session_context, logout_context, Env, World, Act, ◌>>=◌, ◌>>◌, set_state, get_session,
  set_session, pure, build, build_pure, parsed, map_failure,
}

abbrev pub zero_session : Session
zero_session = record {
  login_salt = make_bytes 4;
  logout_salt = make_bytes 4;
  md5_password = make_bytes 16;
  server_drcom_indicator = make_bytes 16;
  heartbeat_token = make_bytes 4;
  heartbeat_count = 0;
}

-- s.HeartbeatCount++ on a uint64
abbrev pub next_count : ℕ → ℕ
next_count n = (n + 1) % 2 ^ 64

-- r.cfg.RetryCount + 1
abbrev pub one_more : ℤ → ℤ
one_more (pos n) = pos (n + 1)
one_more (negsuc zero) = pos 0
one_more (negsuc (suc n)) = negsuc n

-- A built login packet with the session that its digest went into.
abbrev pub login_packet :
    {E : Type 0} → Option (Bytes × Session × E) → Option ((Bytes × Session) × E)
login_packet none = none
login_packet (some (packet, s, rng)) = some ((packet, s), rng)

-- A session that ends, or runs on after the rounds that were looked at.
pub data Finish : Type 0 where
  finished : Failure → Finish
  running crashed : Finish

module _ {E : Type 0} (env : Env E) (md5 : Bytes → Bytes) (cfg : Config) where
  -- The state of an exchange: the world, and the variable `response`.
  abbrev pub Exchanging : Type 0
  Exchanging = World E × Bytes

  abbrev pub checked : Option (Result Bool) → Outcome (Unit {0})
  checked none = panicked
  checked (some (err e)) = failed (parse e)
  checked (some (ok true)) = done tt
  checked (some (ok false)) = failed unexpected_response

  abbrev pub received :
      World E → (Bytes → Option (Result Bool)) → Outcome Bytes × E → Outcome (Unit {0}) × Exchanging
  received w matcher (done p, e) = (checked (matcher p), (record w { env = e }, p))
  received w matcher (failed f, e) = (failed f, (record w { env = e }, []))
  received w matcher (panicked, e) = (panicked, (record w { env = e }, []))

  unfoldable pub attempt : Context → Bytes → Bool → Exchanging → Outcome (Unit {0}) × Exchanging
  attempt ctx packet allow_file (w, response) =
      let matcher = response_matcher packet allow_file in
      received w matcher (env.exchange ctx packet matcher w.env)

  unfoldable pub poll_in : Context → Exchanging → Option Failure × Exchanging
  poll_in ctx (w, response) =
      let polled = env.poll ctx w.env in (polled.0, (record w { env = polled.1 }, response))

  abbrev pub exchanged : Phase → Outcome (Unit {0}) × Exchanging → Outcome Bytes × World E
  exchanged phase (done u, (w, response)) = (done response, w)
  exchanged phase (failed e, (w, response)) = (failed (in_phase phase e), w)
  exchanged phase (panicked, (w, response)) = (panicked, w)

  -- Runner.exchange
  unfoldable pub exchange : Context → Phase → Bytes → Bool → Act E Bytes
  exchange ctx phase packet allow_file w = exchanged phase (
      retry_exchange (poll_in ctx) (attempt ctx packet allow_file) (one_more cfg.retry_count)
        (w, []))

  settings : Types.Config
  settings = protocol_config cfg

  -- ErrRejected in the login phase means that the account was refused.
  abbrev pub login_failure : Failure → Failure
  login_failure e = if is_rejected e then authentication_rejected else e

  -- Runner.Login
  unfoldable pub login : Act E Session
  unfolding settings
  login = do
    set_state login_challenge
    packet ← build (build_login_challenge settings.auth_version env.read)
    p ← exchange session_context Phase.login_challenge packet false
    salt ← parsed (parse_login_challenge_response p)
    set_state logging_in
    let s = record zero_session { login_salt = salt }
    (packet, s) ← build (λ rng. login_packet (build_login_packet md5 settings s env.read rng))
    p ← map_failure login_failure (exchange session_context Phase.login packet false)
    parsed (parse_login_response p s)

  -- Runner.Logout, on the session of the world. (Where the parser fails, the source has cleared the
  -- salt of a session that nobody reads any more.)
  unfoldable pub logout : Act E (Unit {0})
  unfolding settings
  logout = do
    set_state logging_out
    packet ← build (build_logout_challenge settings.auth_version env.read)
    p ← exchange logout_context Phase.logout_challenge packet false
    salt ← parsed (parse_logout_challenge_response p)
    s ← get_session
    let s = record s { logout_salt = salt }
    set_session s
    packet ← build_pure (build_logout_packet md5 settings s)
    exchange logout_context Phase.logout packet false
    set_state stopped

  -- Runner.KeepAliveAuth with time.Now()
  unfoldable pub keep_alive_auth : Act E Bytes
  keep_alive_auth = do
    time ← build (λ e. some (env.now e))
    s ← get_session
    packet ← build_pure (build_keep_alive_auth s time)
    exchange session_context Phase.keepalive_auth packet false

  -- s.HeartbeatCount++
  unfoldable pub count_up : Act E (Unit {0})
  count_up = do
    s ← get_session
    set_session (record s { heartbeat_count = next_count s.heartbeat_count })

  unfoldable pub send_first_or_extra : Session → Act E (Unit {0})
  unfolding settings
  send_first_or_extra s = do
    packet ← build (
        if s.heartbeat_count == 0
        then build_first_heartbeat settings s env.read
        else build_extra_heartbeat settings s env.read)
    exchange session_context Phase.first_extra_heartbeat packet true
    count_up

  -- The first heartbeat of a session, or the extra one that is due at every 21st count.
  unfoldable pub first_or_extra : Session → Act E (Unit {0})
  first_or_extra s =
      if (s.heartbeat_count == 0) || (s.heartbeat_count % 21 == 0)
      then send_first_or_extra s
      else pure tt

  -- Step 1 of a heartbeat: the server's token goes into the session; the random token comes back.
  unfoldable pub send_step1 : Session → Act E Bytes
  unfolding settings
  send_step1 s = do
    step1 ← build (build_heartbeat_step1 settings s env.read)
    random_token ← build_pure (slice? 8 12 step1)
    p ← exchange session_context Phase.heartbeat_step1 step1 false
    s ← parsed (parse_heartbeat_step1_response p s)
    set_session s
    count_up
    pure random_token

  -- Step 2, with the random token of step 1.
  unfoldable pub send_step2 : Bytes → Session → Act E (Unit {0})
  unfolding settings
  send_step2 random_token s = do
    step2 ← build_pure (build_heartbeat_step2 settings s random_token)
    exchange session_context Phase.heartbeat_step2 step2 false
    count_up

  -- Runner.HeartbeatOnce, on the session of the world
  unfoldable pub heartbeat_once : Act E (Unit {0})
  heartbeat_once = do
    keep_alive_auth
    s ← get_session
    first_or_extra s
    s ← get_session
    random_token ← send_step1 s
    s ← get_session
    send_step2 random_token s

  -- The state changes when a heartbeat has failed or succeeded.
  abbrev pub mark : State → World E → World E
  mark s w = record w { state = s; reported = w.reported ++ s ∷ [] }

  abbrev pub after_timer :
      (World E → Finish × World E) → World E → Option Failure × E → Finish × World E
  after_timer again w (some e, env) = (finished e, record w { env = env })
  after_timer again w (none, env) = again (record w { env = env })

  abbrev pub after_beat :
      (World E → Finish × World E) → Outcome (Unit {0}) × World E → Finish × World E
  after_beat again (failed e, w) = (finished e, mark failing w)
  after_beat again (panicked, w) = (crashed, w)
  after_beat again (done u, w) =
      let w' = mark online w in after_timer again w' (env.timer cfg.heartbeat_interval w'.env)

  -- The loop of Runner.Run, for so many rounds.
  unfoldable pub rounds : ℕ → World E → Finish × World E
  rounds zero w = (running, w)
  rounds (suc n) w = after_beat (λ v. rounds n v) (heartbeat_once w)

  -- The result of the deferred logout is only logged.
  abbrev pub after_logout : Finish → Outcome (Unit {0}) × World E → Finish × World E
  after_logout f (panicked, w) = (crashed, w)
  after_logout f (failed e, w) = (f, w)
  after_logout f (done u, w) = (f, w)

  abbrev pub log_out_if_done : Finish → World E → Option Failure × E → Finish × World E
  log_out_if_done f w (none, env) = (f, record w { env = env })
  log_out_if_done f w (some e, env) = after_logout f (logout (record w { env = env }))

  -- The deferred function of Runner.Run.
  abbrev pub deferred : Finish × World E → Finish × World E
  deferred (running, w) = (running, w)
  deferred (crashed, w) = log_out_if_done crashed w (env.poll session_context w.env)
  deferred (finished e, w) = log_out_if_done (finished e) w (env.poll session_context w.env)

  abbrev pub after_login : ℕ → Outcome Session × World E → Finish × World E
  after_login n (failed e, w) = (finished e, mark failing w)
  after_login n (panicked, w) = (crashed, w)
  after_login n (done s, w) = deferred (rounds n (record w { session = s }))

  -- Runner.Run, looked at for so many rounds of its loop.
  unfoldable pub run : ℕ → World E → Finish × World E
  run n w =
      if ltb_ℤ (pos 0) cfg.heartbeat_interval
      then after_login n (login w)
      else (finished bad_interval, w)
