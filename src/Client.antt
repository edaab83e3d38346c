-- ===== src/Client.antt =====
-- The client of client/inner.rs.
pub mod State
pub mod Clock
pub mod Receive
pub mod Sending
pub mod Values
pub mod Handle
pub mod Reconnect
pub mod Task
