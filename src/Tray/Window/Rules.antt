-- ===== src/Tray/Window/Rules.antt =====
-- A property of the state after a message or a command, from the property after each operation.
use jlu_drcom_win.Base.{ℕ, ◌%◌, ◌^◌, ◌≡◌, true, arith}
use jlu_drcom_win.Tray.System.{
  Message, System, wm_power_broadcast, wm_worker_done, add_tray_icon, modify_tip,
}
use jlu_drcom_win.Tray.Client.{
  start_client, stop_client, request_exit, runner_done, power_event, toggle_startup,
}
use jlu_drcom_win.Tray.Window.{
  show_menu, handle_menu, on_destroy, on_close, on_end_session, window_proc,
}

module _ (P : System → Type 0) where
  pub handle_menu_rule :
      (cmd : ℕ) (s : System)
      → P s
      → P (start_client s)
      → P (stop_client s)
      → P (toggle_startup s)
      → P (request_exit s)
      → P (handle_menu cmd s)
  unfolding handle_menu
  handle_menu_rule cmd s p a b c d = ground arith

  pub window_rule :
      (taskbar_created : ℕ) (m : Message) (s : System)
      → P s
      → P (add_tray_icon s)
      → P (modify_tip s)
      → ((m.code ≡ wm_worker_done) × (s.active ≡ true) → P (runner_done s))
      → P (on_end_session m.w_param s)
      → (m.code ≡ wm_power_broadcast → P (power_event m.w_param s))
      → P (show_menu s)
      → P (handle_menu (m.w_param % 2 ^ 16) s)
      → P (on_close s)
      → P (on_destroy s)
      → P (window_proc taskbar_created m s).0
  unfolding window_proc
  window_rule taskbar_created m s p icon tip ended session power menu cmd close destroy =
      ground arith
