-- ===== src/Tray/Power.antt =====
-- A logout while the computer is suspended.
use jlu_drcom_win.Base.{ℕ, ◌≡◌, arith, Option, none}
use jlu_drcom_win.Transport.Failure.{Failure}
use jlu_drcom_win.Tray.System.{System}
use jlu_drcom_win.Tray.Client.{start_client, stop_client, runner_done, power_event}

-- The state when the worker has ended with the error: what runClient stores, and the message.
abbrev pub after_end : Option Failure → System → System
after_end err s = runner_done (record s { app = record s.app { worker_err = err } })

-- A logout during the suspension is remembered: the resumption starts no client, nor does the end of
-- the worker, whichever comes first and whatever that end is.
pub suspend_logout :
    (s : System) (err : Option Failure) (event : ℕ)
    → ((power_event event (after_end err (stop_client (power_event 4 s)))).app.cancel ≡ none)
      × ((after_end err (power_event event (stop_client (power_event 4 s)))).app.cancel ≡ none)
unfolding power_event runner_done start_client stop_client
suspend_logout s err event = ground arith
