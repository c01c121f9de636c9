-- ===== src/Tray.antt =====
-- internal/trayapp: the tray application, its worker, and its entry among the startup programs.
pub mod System
pub mod Client
pub mod Window
pub mod Steps
pub mod Startup
pub mod Invariant
pub mod Reached
pub mod Ours
pub mod Life
pub mod Power
pub mod Asleep
pub mod Exit
pub mod Next
pub mod Leaving
