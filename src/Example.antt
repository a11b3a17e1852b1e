-- ===== src/Example.antt =====
-- The example programs, example.
pub mod Ftp
pub mod Echo
pub mod EchoRate
