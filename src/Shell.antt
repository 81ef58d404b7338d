-- ===== src/Shell.antt =====
-- The shell of the user interface: firmware/src/shell.
pub mod Nav
pub mod Launcher
mod Tests
