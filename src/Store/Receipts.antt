-- ===== src/Store/Receipts.antt =====
-- crates/chronicle-store/src/receipts.rs: disclosure grants, cursors and derived-write receipts.
pub mod Document
pub mod Ledger
pub mod Session
pub mod Commit
pub mod Lookup
pub mod Calls
pub mod Lifecycle
pub mod History
pub mod Staging
pub mod Trace
pub mod Soundness
pub mod Revocation
pub mod Budget
pub mod Cursors
pub mod Writes
pub mod Install
pub mod Health
pub mod Tests
