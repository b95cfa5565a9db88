-- ===== src/Arbitration.antt =====
-- The dispute resolution of the node, node/src/arbitration.rs.
pub mod Tiers
pub mod Kleros
pub mod Evidence
pub mod Ai
pub mod Session
pub mod Pool
mod Tests
