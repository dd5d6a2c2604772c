-- ===== src/Store.antt =====
-- crates/chronicle-store: the canonical store and its receipts.
pub mod Errors
pub mod World
pub mod Receipts
pub mod Storage
pub mod Journal
