-- ===== src/Tests.antt =====
-- Sample data, tests, and the theorems at concrete inputs.
pub mod Samples
pub mod Wire
pub mod Buffer
pub mod Types
pub mod Sending
pub mod Handling
pub mod Clients
pub mod Registry
pub mod Versions
pub mod Handshakes
pub mod Threads
pub mod Selector
pub mod Servers
pub mod Recovery
pub mod Pings
pub mod Logging
