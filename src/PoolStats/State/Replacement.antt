-- ===== src/PoolStats/State/Replacement.antt =====
-- The replacement rules of `advance_endpoint` and `advance_snapshot`, against the finite map that
-- a history stands for.
mod Tests
pub mod Endpoints
pub mod Operators
