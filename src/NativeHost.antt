-- ===== src/NativeHost.antt =====
-- The native-messaging host, rust/crates/hns-chromium-native-host/src/lib.rs.
pub mod Framing
pub mod Observations
mod Runs
