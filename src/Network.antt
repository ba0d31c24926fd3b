-- ===== src/Network.antt =====
-- The wire protocol and message transport, veltix/network.
pub mod Types
pub mod SystemTypes
pub mod IdAllocator
pub mod Request
pub mod Response
pub mod Parser
pub mod MessageBuffer
pub mod Wire
pub mod Sender
