-- ===== src/Tests/Exchanges.antt =====
-- The theorems on exchanges, in surroundings that count the calls.
use jlu_drcom_win.Base.{
  ℕ, suc, ◌≡◌, refl, pos, Bool, false, Option, none, [], ◌∷◌, arith, if◌then◌else◌, ◌==◌,
}
use jlu_drcom_win.Protocol.Types.{Bytes, IsSession, Result}
use jlu_drcom_win.Transport.Failure.{
  Failure, timeout, Outcome, done, failed, panicked, heartbeat_step1,
}
use jlu_drcom_win.Transport.Retry.{at_least_one, retry_exchange}
use jlu_drcom_win.Transport.Retry.Bounds.{Ends, retry_exchange-Ends}
use jlu_drcom_win.Protocol.Response.{response_matcher}
use jlu_drcom_win.Config.Types.{Config}
use jlu_drcom_win.Runner.World.{Env, World, Context, disconnected, session_context}
use jlu_drcom_win.Runner.Rules.{Holds}
use jlu_drcom_win.Runner.Exchange.{Same, Replied, exchange-Holds}
use jlu_drcom_win.Runner.Steps.{next_count, exchange, heartbeat_once, rounds}
use jlu_drcom_win.Runner.Beat.Parts.{after_extra, Counted, Failing}
use jlu_drcom_win.Runner.Beat.{heartbeat_once-Holds}
use jlu_drcom_win.Runner.Rounds.{Ran, rounds-Ran}
use jlu_drcom_win.Tests.Samples.{sevens, first16, config, session, step1, step1_reply}

abbrev never : ℕ → Option Failure × ℕ
never calls = (none, calls)

-- The third call succeeds.
abbrev third : ℕ → Outcome (Unit {0}) × ℕ
third calls = (if calls == 2 then done tt else failed timeout, suc calls)

retry_exchange-Ends_example :
    Ends never third (at_least_one (pos 5)) 0 (retry_exchange never third (pos 5) 0)
retry_exchange-Ends_example = retry_exchange-Ends never third (pos 5) 0

-- A server that answers every request of the session with the reply to step 1.
abbrev answer : Context → Bytes → (Bytes → Option (Result Bool)) → ℕ → Outcome Bytes × ℕ
answer ctx packet matcher calls = (done step1_reply, suc calls)

abbrev env : Env ℕ
env = record {
  poll = λ ctx calls. (none, calls);
  exchange = answer;
  read = sevens;
  now = λ calls. (1700000000, calls);
  timer = λ interval calls. (none, calls);
}

abbrev world : World ℕ
world = record { env = 0; state = disconnected; reported = []; session = session }

abbrev pub settings : Config
settings = record {
  username = config.username;
  password = config.password;
  ip = config.ip;
  mac = config.mac;
  host_name = config.host_name;
  os_info = config.os_info;
  server_ip = 10 ∷ 100 ∷ 61 ∷ 3 ∷ [];
  server_port = pos 61440;
  bind_ip = 0 ∷ 0 ∷ 0 ∷ 0 ∷ [];
  bind_port = pos 61440;
  auth_version = config.auth_version;
  keep_alive_version = config.keep_alive_version;
  first_heartbeat_version = config.first_heartbeat_version;
  extra_heartbeat_version = config.extra_heartbeat_version;
  primary_dns = config.primary_dns;
  dhcp_server = config.dhcp_server;
  debug_hex_dump = false;
  receive_timeout = pos 2000000000;
  retry_count = pos 3;
  heartbeat_interval = pos 20000000000;
  receive_timeout_millis = pos 2000;
  heartbeat_interval_secs = pos 20;
  adapter_hint = [];
  auto_network = record { interface_name = []; ip = []; mac = [] };
}

never_panics :
    (ctx : Context) (p : Bytes) (file : Bool) (e : ℕ)
    → (env.exchange ctx p (response_matcher p file) e).0 ≡ panicked
    → ⊥
never_panics ctx p file e q = ground arith

exchange-Holds_example :
    Holds
      (Replied env first16 settings ⊥ never_panics session_context step1 false world)
      (λ e v. Same world v)
      ⊥
      (exchange env first16 settings session_context heartbeat_step1 step1 false world)
exchange-Holds_example =
    exchange-Holds env first16 settings ⊥ never_panics session_context step1 false world
      heartbeat_step1

reads : (n calls : ℕ) → env.read n calls ≡ none → ⊥
reads n calls q = ground arith

pub session-IsSession : IsSession world.session
session-IsSession = record {
  login_salt = refl;
  logout_salt = refl;
  md5_password = refl;
  server_drcom_indicator = refl;
  heartbeat_token = refl;
  heartbeat_count = omega arith;
}

heartbeat_once-Holds_example :
    Holds
      (λ u t. Counted world (next_count (next_count (after_extra 260))) t)
      (Failing world)
      ⊥
      (heartbeat_once env first16 settings world)
heartbeat_once-Holds_example =
    heartbeat_once-Holds env first16 settings ⊥ never_panics reads world session-IsSession

rounds-Ran_example :
    Ran env first16 settings ⊥ never_panics reads 3 world [] 260
      (rounds env first16 settings 3 world)
rounds-Ran_example = rounds-Ran env first16 settings ⊥ never_panics reads 3 world session-IsSession
