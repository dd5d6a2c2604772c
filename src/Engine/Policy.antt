-- ===== src/Engine/Policy.antt =====
-- crates/chronicle-engine/src/policy.rs: which ranges and content classes a grant allows a query.
-- The digest of a scope is SHA-256 over JSON, which is a parameter, as is the last second that
-- chrono can represent. `panicked` stands for `Duration::seconds` out of its bounds.
pub mod Align
pub mod Scope
pub mod Ranges
pub mod Authorized
