-- ===== src/Tests/Commands.antt =====
-- A first instance whose application fails.
use jlu_drcom_win.Base.{◌≡◌, refl, ◌==◌, ◌++◌, true, [], ◌∷◌, none, some, inr}
use jlu_drcom_win.Transport.Failure.{timeout}
use jlu_drcom_win.Command.{
  Calls, mutex_created, mutex_closed, log_opened, log_closed, logged, app_ran, error_shown,
  tray_starting, tray_failed, error_already_exists, run, main,
}
use jlu_drcom_win.Command.Held.{free, replay, final, main-final}

abbrev calls : Calls
calls = record {
  executable = inr (0x61 ∷ []);
  config_beside = λ exe. exe ++ 0x63 ∷ [];
  parse_flags = λ path. inr (record { config_path = path; auto_login = true; startup = [] });
  absolute = λ path. inr path;
  configure_startup = λ mode path. none;
  create_mutex = (4, 0);
  user_logger = none;
  run_app = λ path auto. some timeout;
}

runs : main calls ≡ (
  1,
  mutex_created 4
      ∷ log_opened
      ∷ logged tray_starting
      ∷ app_ran (0x61 ∷ 0x63 ∷ []) true
      ∷ logged tray_failed
      ∷ log_closed
      ∷ mutex_closed 4
      ∷ error_shown
      ∷ [],
)
unfolding main run
runs = refl

main-final_example :
    replay (calls.create_mutex.1 == error_already_exists) free (main calls).1
    ≡ some (final (run calls).0)
main-final_example = main-final calls
