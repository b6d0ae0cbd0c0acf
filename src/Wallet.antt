-- ===== src/Wallet.antt =====
-- The wallet interface of the native host, rust/crates/hns-chromium-native-host/src/wallet_abi.rs.
pub mod Text
pub mod Rejection
pub mod Jcs
pub mod Manifest
pub mod Configuration
pub mod Metadata
pub mod RollbackState
pub mod AntiRollback
pub mod Capability
pub mod Responses
pub mod Lease
pub mod Controller
pub mod Lifecycle
pub mod Sample
pub mod Runs
pub mod ServiceRuns
