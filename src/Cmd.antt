-- ===== src/Cmd.antt =====
-- cmd/clippy/main.go: the command line.
pub mod Commands
pub mod Flags
pub mod Serve
pub mod Tests
