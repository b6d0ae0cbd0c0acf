-- ===== src/PoolStats.antt =====
-- The MeshMine pool-statistics verifier, rust/crates/hns-meshmine-pool-stats/src/hrm.rs.
pub mod Error
pub mod Literals
pub mod Bytes
pub mod Crypto
pub mod Label
pub mod Cbor
pub mod Authority
pub mod History
pub mod Reader
pub mod Document
pub mod Endpoint
pub mod Snapshot
pub mod Verify
pub mod Codec
pub mod Admission
pub mod Commit
pub mod Engine
pub mod State
pub mod Sample
mod Runs
