-- ===== src/Tests.antt =====
-- The theorems at concrete inputs.
mod Fixtures
mod Specs
mod Clients
mod Effects
mod Invariants
mod Runs
mod Tasks
mod Sockets
mod Handles
mod Users
mod Sessions
