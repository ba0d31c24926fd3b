-- ===== src/Client.antt =====
-- The client and its reconnection (src/veltix/client/).
pub mod Connection
pub mod State
pub mod Reconnect
pub mod Requests
