-- ===== src/Runner/Service.antt =====
-- The supervisor over real runners: New, Runner.Close, and the defaults of Supervisor.Run.
-- (internal/runner/runner.go and internal/runner/supervisor.go.)
pub mod Told
pub mod Opens
use jlu_drcom_win.Base.{ℕ, pos, List, [], Option, none, some}
use jlu_drcom_win.Protocol.Types.{Bytes}
use jlu_drcom_win.Config.Types.{Config}
use jlu_drcom_win.Transport.Failure.{Failure, Outcome}
use jlu_drcom_win.Runner.World.{State, disconnected, Env, World, session_context}
use jlu_drcom_win.Runner.Steps.{Finish, finished, running, crashed, zero_session, run}
use jlu_drcom_win.Runner.Supervisor.{Services}

-- Load, Open (with its default filled in), Close of the exchanger where it has one, and Wait where it
-- is set.
pub record Parts (E : Type 0) : Type 0 where
  pub load : E → Outcome Config × E
  pub open_transport : Config → E → Outcome (Unit {0}) × E
  pub closer : Option (E → Option Failure × E)
  pub wait : Option (ℕ → E → Option Failure × E)

module _ {E : Type 0} (env : Env E) (md5 : Bytes → Bytes) (parts : Parts E) where
  -- New
  abbrev pub new_runner : E → World E
  new_runner e = record { env = e; state = disconnected; reported = []; session = zero_session }

  -- Runner.Close
  abbrev pub close_with : Option (E → Option Failure × E) → E → Option Failure × E
  close_with none e = (none, e)
  close_with (some close) e = close e

  unfoldable pub close_runner : E → Option Failure × E
  close_runner e = close_with parts.closer e

  -- `err = r.Run(ctx)`, and `_ = r.Close()`, which a panic or a session that runs on does not reach.
  abbrev pub closed : Finish × World E → (List State × Finish) × E
  closed (finished e, w) = ((w.reported, finished e), (close_runner w.env).1)
  closed (running, w) = ((w.reported, running), w.env)
  closed (crashed, w) = ((w.reported, crashed), w.env)

  unfoldable pub run_session : ℕ → Config → E → (List State × Finish) × E
  run_session n cfg e = closed (run env md5 cfg n (new_runner e))

  -- waitForRetry: the wait for a timer or for the end of the context.
  abbrev pub wait_for_retry : ℕ → E → Option Failure × E
  wait_for_retry delay e = env.timer (pos delay) e

  abbrev pub wait_of : Option (ℕ → E → Option Failure × E) → ℕ → E → Option Failure × E
  wait_of none = wait_for_retry
  wait_of (some wait) = wait

  -- What Supervisor.Run calls, where each session is looked at for so many rounds of its loop.
  unfoldable pub services : ℕ → Services E
  services n = record {
    poll = env.poll session_context;
    load = parts.load;
    open_transport = parts.open_transport;
    session = run_session n;
    wait = wait_of parts.wait;
  }
