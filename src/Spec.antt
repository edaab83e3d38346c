-- ===== src/Spec.antt =====
-- The protocol's data: spec/mod.rs.
pub mod Extensions
pub mod Topic
pub mod Subscription
pub mod Messages
pub mod MetaTopic
pub mod Wire
pub mod Error
pub mod Encode
