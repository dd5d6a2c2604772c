-- ===== src/Engine/Coverage.antt =====
-- crates/chronicle-engine/src/coverage.rs: which second of a bucket is evidence of what.
-- Milliseconds count from chrono's `MIN_UTC`, a whole second, and not from the epoch.
pub mod Seconds
pub mod Gaps
pub mod Partition
pub mod Totals
pub mod Runs
pub mod Coalesced
