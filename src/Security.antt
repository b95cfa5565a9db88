-- ===== src/Security.antt =====
-- The P2P security module, node/src/network/security.rs.
pub mod Ip
pub mod Tracker
pub mod Subnet24
pub mod Subnet16
pub mod Sybil
pub mod Backoff
pub mod Window
pub mod Capacity
pub mod Bootstrap
mod Tests
