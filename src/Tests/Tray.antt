-- ===== src/Tests/Tray.antt =====
-- The tray application, started with a login, then told to exit from its menu.
use jlu_drcom_win.Base.{ℕ, ◌≡◌, ◌⊎◌, inr, refl, true, false, none, some, ◌≤◌, arith}
use jlu_drcom_win.Transport.Failure.{canceled}
use jlu_drcom_win.Tray.System.{System, Message, wm_tray}
use jlu_drcom_win.Tray.Client.{power_event, request_exit, stop_client}
use jlu_drcom_win.Tray.Window.{choose, window_proc, show_menu, menu_login, menu_exit, menu_items}
use jlu_drcom_win.Tray.Steps.{launch, Reach, launched, later, receive, choose_command}
use jlu_drcom_win.Tray.Invariant.{Inv}
use jlu_drcom_win.Tray.Reached.{Reach-Inv}
use jlu_drcom_win.Tray.Exit.{IsLeaving, exiting-IsLeaving}
use jlu_drcom_win.Tray.Leaving.{Leads, exiting-Leads}
use jlu_drcom_win.Tray.Life.{Moves}
use jlu_drcom_win.Tray.Life.Simulation.{Step-Moves}
use jlu_drcom_win.Tray.Power.{after_end, suspend_logout}
use jlu_drcom_win.Tray.Asleep.{IsAsleep, Resumes, suspended-IsAsleep}

abbrev taskbar : ℕ
taskbar = 0xc0de

registered : (taskbar ≡ 0) ⊎ (0xc000 ≤ taskbar)
registered = inr (omega arith)

abbrev right_click : Message
right_click = record { code = wm_tray; w_param = 0; l_param = 0x0205 }

abbrev logging_in : System
logging_in = launch true true

abbrev with_menu : System
with_menu = (window_proc taskbar right_click logging_in).0

abbrev leaving : System
leaving = choose menu_exit with_menu

menu_opened : with_menu.menu ≡ some (menu_items logging_in.app)
unfolding window_proc launch
menu_opened = refl

leaving_reached : Reach taskbar leaving
leaving_reached =
    later (later (launched true true) (receive right_click (ground arith) (ground arith) refl))
      (choose_command menu_exit (menu_items logging_in.app) menu_opened refl)

leaving_exits : leaving.app.exiting ≡ true
unfolding choose window_proc launch request_exit
leaving_exits = refl

leaving_destroyed : leaving.destroyed ≡ false
unfolding choose window_proc launch request_exit
leaving_destroyed = refl

Reach-Inv_example : Inv leaving
Reach-Inv_example = Reach-Inv taskbar registered leaving_reached

exiting-Leads_example : Leads taskbar leaving
exiting-Leads_example =
    exiting-Leads taskbar registered leaving leaving_reached leaving_exits leaving_destroyed

exiting-IsLeaving_example :
    IsLeaving leaving.next_worker (window_proc taskbar right_click leaving).0
exiting-IsLeaving_example =
    exiting-IsLeaving taskbar leaving (window_proc taskbar right_click leaving).0
      (receive right_click (ground arith) (ground arith) refl) leaving_exits

suspend_logout_example :
    ((power_event 18
        (after_end (some canceled) (stop_client (power_event 4 logging_in)))).app.cancel
      ≡ none)
    × ((after_end
          (some canceled)
          (power_event 18 (stop_client (power_event 4 logging_in)))).app.cancel
        ≡ none)
suspend_logout_example = suspend_logout logging_in (some canceled) 18

-- The menu is open, and the computer suspends.
abbrev asleep : System
asleep = power_event 4 with_menu

asleep_suspended : asleep.app.suspended ≡ true
unfolding window_proc launch power_event
asleep_suspended = refl

asleep_menu : asleep.menu ≡ some (menu_items logging_in.app)
unfolding window_proc launch power_event show_menu
asleep_menu = refl

suspended-IsAsleep_example :
    IsAsleep asleep.next_worker (choose menu_login asleep)
    ⊎ Resumes taskbar asleep (choose menu_login asleep)
suspended-IsAsleep_example =
    suspended-IsAsleep taskbar asleep (choose menu_login asleep)
      (choose_command menu_login (menu_items logging_in.app) asleep_menu refl) asleep_suspended

Step-Moves_example : Moves with_menu leaving
Step-Moves_example =
    Step-Moves taskbar registered with_menu leaving
      (later (launched true true) (receive right_click (ground arith) (ground arith) refl))
      (choose_command menu_exit (menu_items logging_in.app) menu_opened refl)
