-- ===== src/Tests.antt =====
-- Tests: the definitions run at concrete inputs, and the theorems applied to them.
pub mod State
pub mod Membership
pub mod Networking
pub mod Protocol
pub mod Replication
pub mod Network
pub mod WebApi
pub mod Node
pub mod Config
pub mod Logging
pub mod Dump
pub mod Lifecycle
pub mod Sensors
pub mod Safety
pub mod Announcing
