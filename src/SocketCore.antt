-- ===== src/SocketCore.antt =====
-- The socket cores (src/veltix/socket_core/).
pub mod ClientsManager
pub mod BaseSocket
pub mod ThreadingSocket
pub mod AsyncSocket
