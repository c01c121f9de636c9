-- ===== src/Runner/Supervisor.antt =====
-- internal/runner/supervisor.go: sessions one after the other, with growing delays between them.
-- The session is a parameter here: which states Runner.Run reported, and how it ended.
use jlu_drcom_win.Base.{
  ℕ, zero, suc, ◌*◌, Bool, true, false, List, [], ◌∷◌, ◌++◌, Option, none, some, min, if◌then◌else◌,
}
use jlu_drcom_win.Config.Types.{Config}
use jlu_drcom_win.Transport.Failure.{
  Failure, is_authentication_rejected, is_network_unavailable, Outcome, done, failed, panicked,
}
use jlu_drcom_win.Runner.World.{State, online, reconnecting}
use jlu_drcom_win.Runner.Steps.{Finish}
pub mod Delays
pub mod Backoff
pub mod History

-- ctx.Err(), Load, Open, the session of a new runner with its Close, and Wait.
pub record Services (E : Type 0) : Type 0 where
  pub poll : E → Option Failure × E
  pub load : E → Outcome Config × E
  pub open_transport : Config → E → Outcome (Unit {0}) × E
  pub session : Config → E → (List State × Finish) × E
  pub wait : ℕ → E → Option Failure × E

-- The variable `delay`, in nanoseconds, the states handed to OnState, and the delays waited for.
pub record Loop (E : Type 0) : Type 0 where
  pub env : E
  pub delay : ℕ
  pub reported : List State
  pub waited : List ℕ

-- How Supervisor.Run ends, or that it is in a session which runs on after the rounds that were
-- looked at.
pub data Ending : Type 0 where
  returned : Failure → Ending
  crashed : Ending
  in_session : Ending

abbrev pub first_delay : ℕ
first_delay = 5000000000

abbrev pub last_delay : ℕ
last_delay = 60000000000

-- state == StateOnline
abbrev pub is_online : State → Bool
is_online online = true
is_online _ = false

-- The callback of the runner: a session that comes online resets the delay.
abbrev pub after_states : List State → ℕ → ℕ
after_states [] delay = delay
after_states (s ∷ states) delay = after_states states (if is_online s then first_delay else delay)

module _ {E : Type 0} (services : Services E) where
  abbrev Round : Type 0
  Round = Option Ending × Loop E

  abbrev pub after_wait : Loop E → Option Failure × E → Round
  after_wait l (some e, env) = (some (returned e), record l { env = env })
  after_wait l (none, env) = (none, record l { env = env; delay = min (l.delay * 2) last_delay })

  -- The state Reconnecting, and the wait.
  abbrev pub wait_and_retry : Loop E → Round
  wait_and_retry l =
      let l = record l {
        reported = l.reported ++ reconnecting ∷ [];
        waited = l.waited ++ l.delay ∷ [];
      } in
      after_wait l (services.wait l.delay l.env)

  abbrev pub refused_or_retry : Failure → Loop E → Round
  refused_or_retry e l =
      if is_authentication_rejected e then (some (returned e), l) else wait_and_retry l

  -- What follows a session, or the failure to start one.
  abbrev pub after_check : Failure → Loop E → Option Failure × E → Round
  after_check err l (some e, env) = (some (returned e), record l { env = env })
  after_check err l (none, env) = refused_or_retry err (record l { env = env })

  abbrev pub settle : Failure → Loop E → Round
  settle err l = after_check err l (services.poll l.env)

  -- The states that a session reported reach OnState, and the callback that resets the delay.
  abbrev pub notified : List State → E → Loop E → Loop E
  notified states env l = record l {
    env = env;
    delay = after_states states l.delay;
    reported = l.reported ++ states;
  }

  -- Runner.Run returns with an error always: its loop has no other end.
  abbrev pub after_session : Loop E → (List State × Finish) × E → Round
  after_session l ((states, Finish.finished e), env) = settle e (notified states env l)
  after_session l ((states, Finish.running), env) = (some in_session, notified states env l)
  after_session l ((states, Finish.crashed), env) = (some crashed, notified states env l)

  abbrev pub after_open : Config → Loop E → Outcome (Unit {0}) × E → Round
  after_open cfg l (done u, env) = after_session (record l { env = env }) (services.session cfg env)
  after_open cfg l (failed e, env) = settle e (record l { env = env })
  after_open cfg l (panicked, env) = (some crashed, record l { env = env })

  abbrev pub after_load : Loop E → Outcome Config × E → Round
  after_load l (done cfg, env) =
      after_open cfg (record l { env = env }) (services.open_transport cfg env)
  after_load l (failed e, env) =
      if is_network_unavailable e
      then settle e (record l { env = env })
      else (some (returned e), record l { env = env })
  after_load l (panicked, env) = (some crashed, record l { env = env })

  abbrev pub after_condition : Loop E → Option Failure × E → Round
  after_condition l (some e, env) = (some (returned e), record l { env = env })
  after_condition l (none, env) = after_load (record l { env = env }) (services.load env)

  -- One round of the loop of Supervisor.Run. Where ctx.Err() is asked again for the result, it is
  -- the same error: a context that has ended stays so.
  unfoldable pub round : Loop E → Option Ending × Loop E
  round l = after_condition l (services.poll l.env)

  abbrev pub continue_loop : (Loop E → Round) → Round → Round
  continue_loop again (some e, l) = (some e, l)
  continue_loop again (none, l) = again l

  -- The loop, for so many rounds.
  unfoldable pub loop : ℕ → Loop E → Option Ending × Loop E
  loop zero l = (none, l)
  loop (suc n) l = continue_loop (loop n) (round l)

  -- Supervisor.Run
  unfoldable pub supervise : ℕ → E → Option Ending × Loop E
  supervise n env = loop n (record { env = env; delay = first_delay; reported = []; waited = [] })
