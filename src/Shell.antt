-- ===== src/Shell.antt =====
-- hw02: a shell (myshell.c, driven by shell.c).
pub mod Process
pub mod Exec
pub mod Parse
pub mod Words
pub mod Fields
pub mod Main
pub mod Spec
pub mod Commands
pub mod Dispatch
pub mod Line
pub mod Defined
mod Tests
