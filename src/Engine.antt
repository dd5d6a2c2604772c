-- ===== src/Engine.antt =====
-- crates/chronicle-engine: the disclosure policy, the cadence guard, the coverage of a bucket, the
-- transitions between applications, and what the study and the runtime keep in config.json.
pub mod Errors
pub mod Config
pub mod Study
pub mod Runtime
pub mod Recorder
pub mod Policy
pub mod Cadence
pub mod Coverage
pub mod Tests
pub mod Transitions
