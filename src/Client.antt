-- ===== src/Client.antt =====
-- cmd/authclient: the client's configuration, one authentication, the loops that repeat it, and the
-- start.
pub mod Config
pub mod Auth
pub mod Alarm
pub mod Start
pub mod Loop
pub mod Startup
pub mod Logging
