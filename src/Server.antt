-- ===== src/Server.antt =====
-- The two network servers.
pub mod NetRecv
pub mod Session
pub mod Sending
pub mod RecvPost
pub mod Sessions
pub mod LanRecv
