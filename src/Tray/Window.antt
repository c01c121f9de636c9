-- ===== src/Tray/Window.antt =====
-- internal/trayapp/app_windows.go: the menu and the window procedure.
pub mod Rules
use jlu_drcom_win.Base.{
  ℕ, ◌%◌, ◌^◌, Option, none, some, Bool, true, false, not, ◌&&◌, ◌||◌, ◌==◌, if◌then◌else◌, List,
  [], ◌∷◌,
}
use jlu_drcom_win.Tray.System.{
  App, Message, Item, System, wm_destroy, wm_close, wm_query_end_session, wm_end_session,
  wm_command, wm_power_broadcast, wm_user, wm_tray, wm_status, wm_worker_done, add_tray_icon,
  modify_tip, remove_tray_icon,
}
use jlu_drcom_win.Tray.Client.{
  running, start_client, stop_client, request_exit, runner_done, power_event, toggle_startup,
}

abbrev pub menu_status : ℕ
menu_status = 100

abbrev pub menu_login : ℕ
menu_login = 101

abbrev pub menu_logout : ℕ
menu_logout = 102

abbrev pub menu_startup : ℕ
menu_startup = 103

abbrev pub menu_exit : ℕ
menu_exit = 104

abbrev pub menu_config : ℕ
menu_config = 105

abbrev pub menu_logs : ℕ
menu_logs = 106

abbrev item : ℕ → Bool → Item
item id grayed = record { id = id; grayed = grayed; checked = false }

-- The items that showMenu appends, without the separators.
unfoldable pub menu_items : App → List Item
menu_items a =
    item menu_status true
    ∷ item menu_login (running a.cancel)
    ∷ item menu_logout (not (running a.cancel))
    ∷ (record { id = menu_startup; grayed = a.startup_busy; checked = a.startup })
    ∷ item menu_config false
    ∷ item menu_logs false
    ∷ item menu_exit false
    ∷ []

-- showMenu up to TrackPopupMenu. That call handles messages while the menu is open; its command comes
-- later, to `choose`.
unfoldable pub show_menu : System → System
show_menu s = record s { menu = some (menu_items s.app) }

-- handleMenu. Opening the configuration or the logs changes nothing here.
unfoldable pub handle_menu : ℕ → System → System
handle_menu cmd s =
    if cmd == menu_login
    then start_client s
    else if cmd == menu_logout
    then stop_client s
    else if cmd == menu_startup
    then toggle_startup s
    else if cmd == menu_exit
    then request_exit s
    else s

-- The end of showMenu: TrackPopupMenu returns the identifier, or 0.
unfoldable pub choose : ℕ → System → System
choose cmd s = handle_menu (cmd % 2 ^ 16) (record s { menu = none })

unfoldable pub is_tray_activation : ℕ → Bool
is_tray_activation l_param =
    let event = l_param % 2 ^ 16 in
    (event == 0x0202)
    || (event == 0x0205)
    || (event == 0x0203)
    || (event == 0x0206)
    || (event == 0x007b)
    || (event == wm_user)
    || (event == wm_tray)

-- WM_DESTROY, which DestroyWindow sends.
unfoldable pub on_destroy : System → System
on_destroy s = let t = if s.active then remove_tray_icon s else s in record t { quit = true }

abbrev destroy_window : System → System
destroy_window s = on_destroy (record s { destroyed = true })

unfoldable pub on_close : System → System
unfolding on_destroy
on_close s = if s.active && running s.app.cancel then request_exit s else destroy_window s

-- WM_ENDSESSION. The wait for the worker's end, of two seconds at most, changes nothing here.
unfoldable pub on_end_session : ℕ → System → System
on_end_session w_param s =
    if s.active && not (w_param == 0)
    then record (remove_tray_icon (stop_client s)) { quit = true }
    else s

abbrev when_active : (System → System) → System → System
when_active f s = if s.active then f s else s

-- windowProc, with the number that RegisterWindowMessage gave for "TaskbarCreated" (0 if it failed).
-- The result is none where DefWindowProc is called.
unfoldable pub window_proc : ℕ → Message → System → System × Option ℕ
unfolding runner_done power_event show_menu handle_menu on_close on_end_session on_destroy
    is_tray_activation
window_proc taskbar_created m s =
    if not (taskbar_created == 0) && (m.code == taskbar_created) && s.active
    then (add_tray_icon s, some 0)
    else if m.code == wm_status
    then (when_active modify_tip s, some 0)
    else if m.code == wm_worker_done
    then (when_active runner_done s, some 0)
    else if m.code == wm_query_end_session
    then (s, some 1)
    else if m.code == wm_end_session
    then (on_end_session m.w_param s, some 0)
    else if m.code == wm_power_broadcast
    then (when_active (power_event m.w_param) s, some 1)
    else if (m.code == wm_tray) && s.active && is_tray_activation m.l_param
    then (show_menu s, some 0)
    else if (m.code == wm_command) && s.active
    then (handle_menu (m.w_param % 2 ^ 16) s, some 0)
    else if m.code == wm_close
    then (on_close s, some 0)
    else if m.code == wm_destroy
    then (on_destroy s, some 0)
    else (s, none)
