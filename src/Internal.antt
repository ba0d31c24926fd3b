-- ===== src/Internal.antt =====
-- Events and versions (src/veltix/internal/).
pub mod Events
pub mod Version
pub mod Recv
