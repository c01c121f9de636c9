-- ===== src/Runner/Service/Told.antt =====
-- What a supervisor over real runners reports.
use jlu_drcom_win.Base.{ℕ, ◌≡◌, refl, Bool, List, [], ◌∷◌, none, replicate, arith}
use jlu_drcom_win.Protocol.Types.{Bytes}
use jlu_drcom_win.Protocol.Response.{response_matcher}
use jlu_drcom_win.Config.Types.{Config}
use jlu_drcom_win.Transport.Failure.{panicked}
use jlu_drcom_win.Runner.World.{State, login_challenge, logging_in, online, Env, World, Context}
use jlu_drcom_win.Runner.Steps.{Finish, finished, running, crashed, run}
use jlu_drcom_win.Runner.Trace.{Traced, run-Traced}
use jlu_drcom_win.Runner.Trace.States.{IsTrace, unstarted, Story-IsTrace}
use jlu_drcom_win.Runner.Supervisor.{first_delay, supervise}
use jlu_drcom_win.Runner.Supervisor.History.{nothing_yet, Told, Reports, loop-Reports}
use jlu_drcom_win.Runner.Service.{Parts, new_runner, closed, run_session, services}

-- What a session has reported that runs on after so many heartbeats.
abbrev pub IsOpen : ℕ → List State → Type 0
IsOpen n states = states ≡ login_challenge ∷ logging_in ∷ replicate n online

module _ {E : Type 0} (env : Env E) (md5 : Bytes → Bytes) (parts : Parts E) (Crash : Type 0)
    (exchange_crash : (ctx : Context) (p : Bytes) (file : Bool) (e : E)
      → (env.exchange ctx p (response_matcher p file) e).0 ≡ panicked
      → Crash)
    (read_crash : (n : ℕ) (e : E) → env.read n e ≡ none → Crash) (n : ℕ) where
  -- The reports of the supervisor after so many rounds.
  abbrev pub Reported : ℕ → E → Type 0
  Reported k e =
      Reports (services env md5 parts n) (IsTrace n) (IsOpen n) Crash k
        (supervise (services env md5 parts n) k e)

  closed-Told :
      (cfg : Config) (s : World E) (r : Finish × World E)
      → Traced env md5 cfg Crash exchange_crash read_crash n s r
      → Told (services env md5 parts n) (IsTrace n) (IsOpen n) Crash (closed env md5 parts r).0
  closed-Told cfg s (finished e, w) h =
      Story-IsTrace env md5 cfg Crash exchange_crash read_crash n s e w h
  closed-Told cfg s (running, w) h = h.reported
  closed-Told cfg s (crashed, w) h = h

  session-Told :
      (cfg : Config) (e : E)
      → Told
          (services env md5 parts n)
          (IsTrace n)
          (IsOpen n)
          Crash
          (run_session env md5 parts n cfg e).0
  unfolding run_session
  session-Told cfg e =
      closed-Told cfg (new_runner env md5 parts e) (run env md5 cfg n (new_runner env md5 parts e))
        (run-Traced env md5 cfg Crash exchange_crash read_crash n (new_runner env md5 parts e) refl)

  -- What a supervisor of real runners reports, looked at for k rounds, and each session for n
  -- heartbeats. While it goes on, k times: the states of a session that has ended (as those of Run
  -- are), or nothing, and then Reconnecting. When it has ended, so many such rounds, k at most, and
  -- then those of a last session, or nothing. And in a session that runs, those rounds and then
  -- LoginChallenge, LoggingIn, and Online n times. It panics only if Load, Open, the exchanger or the
  -- random reader does.
  pub supervise-Reports : (k : ℕ) (e : E) → Reported k e
  unfolding supervise services
  supervise-Reports k e =
      loop-Reports (services env md5 parts n) (IsTrace n) (IsOpen n) Crash (unstarted refl)
        session-Told k 0 k (record { env = e; delay = first_delay; reported = []; waited = [] })
        (omega arith) nothing_yet
