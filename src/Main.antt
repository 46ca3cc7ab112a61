-- ===== src/Main.antt =====
-- The command line of main.c.
pub mod Arguments
pub mod Serve
pub mod Run
