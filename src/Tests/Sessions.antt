-- ===== src/Tests/Sessions.antt =====
-- A whole session with a server that answers, and whose second heartbeat timer is cancelled.
use jlu_drcom_win.Base.{
  ℕ, suc, ◌==◌, ◌≡◌, refl, Bool, Option, none, some, [], ◌∷◌, arith, if◌then◌else◌, replicate,
}
use jlu_drcom_win.Protocol.Types.{Bytes}
use jlu_drcom_win.Protocol.Response.{response_matcher}
use jlu_drcom_win.Transport.Failure.{Failure, canceled, done, panicked}
use jlu_drcom_win.Runner.World.{Env, World, Context, session_context, logout_context, disconnected}
use jlu_drcom_win.Runner.Rules.{Holds}
use jlu_drcom_win.Runner.Steps.{run, login, logout, zero_session}
use jlu_drcom_win.Runner.Login.{LoggedIn, LoginFailed, login-Holds}
use jlu_drcom_win.Runner.Logout.{LoggedOut, LogoutFailed, logout-Holds}
use jlu_drcom_win.Runner.Service.{Parts}
use jlu_drcom_win.Runner.Service.Told.{Reported, supervise-Reports}
use jlu_drcom_win.Runner.Trace.{Traced, run-Traced}
use jlu_drcom_win.Tests.Samples.{sevens, first16, session, login_reply}
use jlu_drcom_win.Tests.Exchanges.{settings, session-IsSession}

-- The reply to a request with this type, second byte and step.
abbrev reply_to : ℕ → ℕ → ℕ → Bytes
reply_to kind second step =
    if kind == 0x01
    then 0x02 ∷ second ∷ 0 ∷ 0 ∷ 21 ∷ 22 ∷ 23 ∷ 24 ∷ []
    else if kind == 0x03
    then login_reply
    else if kind == 0x07
    then 0x07 ∷ second ∷ 0x28 ∷ 0 ∷ 0x0b ∷ (if step == 0x03 then 0x04 else 0x02) ∷ replicate 34 0
    else if kind == 0xff
    then 0x07 ∷ 0 ∷ 16 ∷ 0 ∷ 0x06 ∷ replicate 67 0
    else 0x04 ∷ replicate 29 0

abbrev pub reply : Bytes → Bytes
reply (kind ∷ second ∷ b2 ∷ b3 ∷ b4 ∷ step ∷ bytes) = reply_to kind second step
reply _ = []

-- The state counts the exchanges and the reads; the session's context ends after two heartbeats.
abbrev ended_at : Context → ℕ → Option Failure
ended_at session_context calls = if calls == 14 then some canceled else none
ended_at logout_context calls = none

abbrev env : Env ℕ
env = record {
  poll = λ ctx calls. (ended_at ctx calls, calls);
  exchange = λ ctx packet matcher calls. (done (reply packet), suc calls);
  read = sevens;
  now = λ calls. (1700000000, calls);
  timer = λ interval calls. (ended_at session_context calls, calls);
}

abbrev world : World ℕ
world = record { env = 0; state = disconnected; reported = []; session = zero_session }

abbrev logged_in : World ℕ
logged_in = record world { session = session }

never_panics :
    (ctx : Context) (p : Bytes) (file : Bool) (e : ℕ)
    → (env.exchange ctx p (response_matcher p file) e).0 ≡ panicked
    → ⊥
never_panics ctx p file e q = ground arith

reads : (n calls : ℕ) → env.read n calls ≡ none → ⊥
reads n calls q = ground arith

login-Holds_example :
    Holds
      (LoggedIn env first16 settings ⊥ never_panics reads world)
      (LoginFailed env first16 settings ⊥ never_panics reads world)
      ⊥
      (login env first16 settings world)
login-Holds_example = login-Holds env first16 settings ⊥ never_panics reads world

logout-Holds_example :
    Holds
      (LoggedOut env first16 settings ⊥ never_panics reads logged_in)
      (LogoutFailed env first16 settings ⊥ never_panics reads logged_in)
      ⊥
      (logout env first16 settings logged_in)
logout-Holds_example =
    logout-Holds env first16 settings ⊥ never_panics reads logged_in session-IsSession

run-Traced_example :
    Traced env first16 settings ⊥ never_panics reads 3 world (run env first16 settings 3 world)
run-Traced_example = run-Traced env first16 settings ⊥ never_panics reads 3 world refl

-- Settings that load, a socket that opens, and waits that do not end early.
abbrev parts : Parts ℕ
parts = record {
  load = λ calls. (done settings, calls);
  open_transport = λ cfg calls. (done tt, calls);
  closer = some (λ calls. (none, calls));
  wait = none;
}

supervise-Reports_example : Reported env first16 parts ⊥ never_panics reads 3 2 0
supervise-Reports_example = supervise-Reports env first16 parts ⊥ never_panics reads 3 2 0
