-- ===== src/Runner.antt =====
-- internal/runner: one authenticated session, and the supervisor that reconnects.
pub mod World
pub mod Steps
pub mod Rules
pub mod Exchange
pub mod Salt
pub mod Login
pub mod Logout
pub mod Beat
pub mod Rounds
pub mod Trace
pub mod Supervisor
pub mod Service
pub mod Wire
