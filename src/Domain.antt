-- ===== src/Domain.antt =====
-- The contracts of crates/chronicle-domain: versions, grants, evidence and chunks.
pub mod Time
pub mod Version
pub mod Grant
pub mod Event
pub mod Query
pub mod Chunk
pub mod Ids
