-- ===== src/Build.antt =====
-- The build tool of core/build.
pub mod Makefile
