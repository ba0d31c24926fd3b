-- ===== src/Handler.antt =====
-- Message handling (src/veltix/handler/).
pub mod RequestHandler
pub mod Routes
pub mod Rules
pub mod Handshake
