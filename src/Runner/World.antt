-- ===== src/Runner/World.antt =====
-- The surroundings of a runner, its own state, and actions on both. (The states are those of
-- internal/runner/state.go. The logger is left out: it only writes.)
use jlu_drcom_win.Base.{ℕ, ℤ, List, [], ◌∷◌, ◌++◌, Option, none, some, Bool}
use jlu_drcom_win.Protocol.Types.{Bytes, Session, Result, ok, err}
use jlu_drcom_win.Protocol.Buffer.{Reader}
use jlu_drcom_win.Transport.Failure.{Failure, parse, Outcome, done, failed, panicked}

pub data State : Type 0 where
  disconnected login_challenge logging_in online reconnecting logging_out stopped failing : State

-- The context of the session, or the one with a time limit that the logout gets.
pub data Context : Type 0 where
  session_context logout_context : Context

-- What the runner calls and does not implement: ctx.Err(), the Exchanger, io.ReadFull on the random
-- reader, the clock, and the wait for the heartbeat timer or the end of the context. Each acts on
-- the state of the surroundings, which may change as it likes at every call.
pub record Env (E : Type 0) : Type 0 where
  pub poll : Context → E → Option Failure × E
  pub exchange : Context → Bytes → (Bytes → Option (Result Bool)) → E → Outcome Bytes × E
  pub read : Reader E
  pub now : E → ℕ × E
  pub timer : ℤ → E → Option Failure × E

-- `reported` are the states that setState handed to OnState, in order.
pub record World (E : Type 0) : Type 0 where
  pub env : E
  pub state : State
  pub reported : List State
  pub session : Session

abbrev pub Act : Type 0 → Type 0 → Type 0
Act E A = World E → Outcome A × World E

module _ {E A B : Type 0} where
  abbrev pub continue : (A → Act E B) → Outcome A × World E → Outcome B × World E
  continue f (done a, w) = f a w
  continue f (failed e, w) = (failed e, w)
  continue f (panicked, w) = (panicked, w)

  infixl 5 ◌>>=◌ ◌>>◌
  unfoldable pub ◌>>=◌ : Act E A → (A → Act E B) → Act E B
  ◌>>=◌ m f w = continue f (m w)

  abbrev pub ◌>>◌ : Act E A → Act E B → Act E B
  m >> n = m >>= λ _. n

module _ {E : Type 0} where
  -- Runner.setState
  unfoldable pub set_state : State → Act E (Unit {0})
  set_state s w = (done tt, record w { state = s; reported = w.reported ++ s ∷ [] })

  unfoldable pub get_session : Act E Session
  get_session w = (done w.session, w)

  unfoldable pub set_session : Session → Act E (Unit {0})
  set_session s w = (done tt, record w { session = s })

module _ {E A : Type 0} where
  unfoldable pub pure : A → Act E A
  pure a w = (done a, w)

  -- A builder that draws random bytes, and one that does not.
  abbrev pub built : World E → Option (A × E) → Outcome A × World E
  built w none = (panicked, w)
  built w (some (a, env)) = (done a, record w { env = env })

  unfoldable pub build : (E → Option (A × E)) → Act E A
  build builder w = built w (builder w.env)

  unfoldable pub build_pure : Option A → Act E A
  build_pure none w = (panicked, w)
  build_pure (some a) w = (done a, w)

  -- The result of a parser.
  unfoldable pub parsed : Option (Result A) → Act E A
  parsed none w = (panicked, w)
  parsed (some (err e)) w = (failed (parse e), w)
  parsed (some (ok a)) w = (done a, w)

  abbrev pub relabel : (Failure → Failure) → Outcome A × World E → Outcome A × World E
  relabel f (done a, w) = (done a, w)
  relabel f (failed e, w) = (failed (f e), w)
  relabel f (panicked, w) = (panicked, w)

  unfoldable pub map_failure : (Failure → Failure) → Act E A → Act E A
  map_failure f m w = relabel f (m w)
