-- ===== src/Server.antt =====
-- server.c: the server that serves requests from the backends.
pub mod State
pub mod Handlers
pub mod Setup
pub mod Start
pub mod Accounts
pub mod Confinement
