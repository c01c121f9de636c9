-- ===== src/Config.antt =====
-- internal/config: the settings of the program.
pub mod Types
pub mod Validate
pub mod Values
pub mod Parse
pub mod Select
pub mod Detect
pub mod Load
