-- ===== src/Engine/Errors.antt =====
-- crates/chronicle-engine/src/ingest.rs: `EngineError`.
use open_chronicle_next.Base.{String}
use open_chronicle_next.Store.Errors.{StoreError}

pub data EngineError : Type 0 where
  store : StoreError → EngineError
  identifier aggregation configuration cadence : String → EngineError
  study_not_started study_expired : EngineError
