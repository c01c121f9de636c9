-- ===== src/Transport/Failure.antt =====
-- The errors that travel between transport, runner and supervisor, and how `errors.Is` sees through
-- the ones that wrap another (fmt.Errorf with %w).
use jlu_drcom_win.Base.{ℕ, Bool, true, false}
use jlu_drcom_win.Protocol.Types.{Bytes, Error}

-- The `name` of an exchange in internal/runner/runner.go.
pub data Phase : Type 0 where
  login_challenge login keepalive_auth first_extra_heartbeat heartbeat_step1 heartbeat_step2 : Phase
  logout_challenge logout : Phase

pub data Failure : Type 0 where
  canceled : Failure
  deadline_exceeded : Failure
  timeout : Failure
  other : ℕ → Failure
  parse : Error → Failure
  unexpected_response : Failure
  bad_interval : Failure
  authentication_rejected : Failure
  network_unavailable : Failure
  no_interface_owns : Bytes → Failure
  attempts : ℕ → Failure → Failure
  in_phase : Phase → Failure → Failure

-- errors.Is(err, ErrTimeout)
abbrev pub is_timeout : Failure → Bool
is_timeout timeout = true
is_timeout (attempts n e) = is_timeout e
is_timeout (in_phase p e) = is_timeout e
is_timeout _ = false

-- errors.Is(err, protocol.ErrRejected)
abbrev pub is_rejected : Failure → Bool
is_rejected (parse Error.rejected) = true
is_rejected (attempts n e) = is_rejected e
is_rejected (in_phase p e) = is_rejected e
is_rejected _ = false

-- errors.Is(err, ErrAuthenticationRejected)
abbrev pub is_authentication_rejected : Failure → Bool
is_authentication_rejected authentication_rejected = true
is_authentication_rejected (attempts n e) = is_authentication_rejected e
is_authentication_rejected (in_phase p e) = is_authentication_rejected e
is_authentication_rejected _ = false

-- errors.Is(err, config.ErrNetworkUnavailable)
abbrev pub is_network_unavailable : Failure → Bool
is_network_unavailable network_unavailable = true
is_network_unavailable (attempts n e) = is_network_unavailable e
is_network_unavailable (in_phase p e) = is_network_unavailable e
is_network_unavailable _ = false

-- errors.Is(err, context.Canceled)
abbrev pub is_canceled : Failure → Bool
is_canceled canceled = true
is_canceled (attempts n e) = is_canceled e
is_canceled (in_phase p e) = is_canceled e
is_canceled _ = false

-- The result of a call: a value, an error, or a panic.
pub data Outcome {ℓ} (A : Type ℓ) : Type ℓ where
  done : A → Outcome A
  failed : Failure → Outcome A
  panicked : Outcome A
