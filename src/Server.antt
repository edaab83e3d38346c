-- ===== src/Server.antt =====
-- The server: server/mod.rs.
pub mod Util
pub mod Invariant
pub mod Connected
pub mod State
pub mod Wording
pub mod Announce
pub mod Topics
pub mod Values
pub mod Clients
pub mod Publish
pub mod Subscribe
pub mod Request
pub mod Connection
pub mod Locks
pub mod Runner
pub mod Handles
pub mod Reachable
