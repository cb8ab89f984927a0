-- ===== src/Cmd.antt =====
-- cmd/emailer: the command line and the wiring.
pub mod Flags
pub mod Main
