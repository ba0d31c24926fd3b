-- ===== src/Server.antt =====
-- The server (src/veltix/server/).
pub mod ClientInfo
pub mod Lifecycle
pub mod Requests
