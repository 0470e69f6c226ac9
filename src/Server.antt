-- ===== src/Server.antt =====
-- internal/server: one SSH connection, from authentication to the handler of its session.
pub mod Session
pub mod Auth
pub mod Router
pub mod Login
pub mod Proxy
pub mod Command
pub mod Run
