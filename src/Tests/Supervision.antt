-- ===== src/Tests/Supervision.antt =====
-- The supervisor without a network, until the fourth wait is cancelled.
use jlu_drcom_win.Base.{ℕ, suc, ◌==◌, if◌then◌else◌, none, some, [], refl}
use jlu_drcom_win.Transport.Failure.{canceled, network_unavailable, done, failed}
use jlu_drcom_win.Runner.Steps.{Finish}
use jlu_drcom_win.Runner.Supervisor.{Services, first_delay, supervise}
use jlu_drcom_win.Runner.Supervisor.Backoff.{backoff, Waited, supervise-Waited}
use jlu_drcom_win.Runner.Supervisor.Delays.{Progress, supervise-Progress}

-- The state counts the waits.
abbrev services : Services ℕ
services = record {
  poll = λ waits. (none, waits);
  load = λ waits. (failed network_unavailable, waits);
  open_transport = λ cfg waits. (done tt, waits);
  session = λ cfg waits. (([], Finish.finished canceled), waits);
  wait = λ delay waits. (if waits == 3 then some canceled else none, suc waits);
}

supervise-Progress_example : Progress services (supervise services 10 0)
supervise-Progress_example = supervise-Progress services 10 0

supervise-Waited_example :
    Waited services (λ cfg s d. refl) (backoff 3 first_delay) (supervise services 3 0)
supervise-Waited_example = supervise-Waited services (λ cfg s d. refl) 3 0
