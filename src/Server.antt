-- ===== src/Server.antt =====
-- cmd/authserver: the server's configuration, its access rules, its packet handler, its goroutines and
-- its start.
pub mod Config
pub mod Access
pub mod Clients
pub mod Handler
pub mod Forward
pub mod System
pub mod Loops
pub mod Runtime
pub mod Startup
pub mod Logging
