-- ===== src/Engine/Config.antt =====
-- config.json, which crates/chronicle-engine/src/study.rs and runtime.rs share, and the calls that
-- read and write it. The file is what serde reads from it; keys that no decision reads, which the
-- code carries along, are left out.
use open_chronicle_next.Base.{
  ℕ, String, Bool, ◌&&◌, not, Option, none, some, List, ◌==◌, if◌then◌else◌,
}
use open_chronicle_next.Base.Outcome.{Result, ok, err, map_err}
use open_chronicle_next.Base.Action.{Action, lift, ◌>>◌}
use open_chronicle_next.Domain.Time.{Instant}
use open_chronicle_next.Domain.Grant.{CaptureCadence, ScreenshotRetention}
use open_chronicle_next.Domain.Event.{EventEnvelope}
use open_chronicle_next.Store.Errors.{StoreError, io, invalid_path, stale_generation}
use open_chronicle_next.Store.World.{StoreGeneration}
use open_chronicle_next.Engine.Errors.{EngineError, store, configuration}

-- The value of a key, which serde may refuse.
pub data Entry (A : Type 0) : Type 0 where
  absent malformed : Entry A
  present : A → Entry A

pub data RecordingMode : Type 0 where
  personal : RecordingMode
  study : (start end : Instant) → (expired_at : Option Instant) → RecordingMode

pub record RuntimeSession : Type 0 where
  pub session_id : String
  pub started_at : Instant
  pub last_heartbeat_at : Instant
  pub closed_at : Option Instant

pub record PendingStartupReconciliation : Type 0 where
  pub new_session : RuntimeSession
  pub gap_events : List EventEnvelope

pub record LastStartupReconciliation : Type 0 where
  pub new_session_id : String
  pub gap_event_ids : List ℕ

pub data RuntimeGapReason : Type 0 where
  sleep storage_outage clock_correction : RuntimeGapReason

pub record PendingRuntimeGapReconciliation : Type 0 where
  pub session_id : String
  pub reason : RuntimeGapReason
  pub device_id : ℕ
  pub display_timezone : String
  pub reconciled_at : Instant
  pub gap_event : EventEnvelope

pub record LastRuntimeGapReconciliation : Type 0 where
  pub session_id : String
  pub reason : RuntimeGapReason
  pub device_id : ℕ
  pub display_timezone : String
  pub reconciled_at : Instant
  pub gap_event_ids : List ℕ

pub record HeartbeatAcknowledgementProof : Type 0 where
  pub event_id : ℕ
  pub heartbeat_at : Instant

pub record HeartbeatAcknowledgementIntent : Type 0 where
  pub proofs : List HeartbeatAcknowledgementProof

-- The JSON object of the file.
pub record ConfigDocument : Type 0 where
  pub recording_mode : Entry RecordingMode
  pub recording_preference : Entry Bool
  pub capture_cadence : Entry CaptureCadence
  pub screenshot_retention : Entry ScreenshotRetention
  pub heartbeat_acknowledgement_intent : Entry HeartbeatAcknowledgementIntent
  pub lifecycle_checkpoint : Entry RuntimeSession
  pub pending_runtime_gap_reconciliation : Entry PendingRuntimeGapReconciliation
  pub last_runtime_gap_reconciliation : Entry LastRuntimeGapReconciliation
  pub pending_startup_reconciliation : Entry PendingStartupReconciliation
  pub last_startup_reconciliation : Entry LastStartupReconciliation

-- `Map::new`.
abbrev pub empty_document : ConfigDocument
empty_document = record {
  recording_mode = absent;
  recording_preference = absent;
  capture_cadence = absent;
  screenshot_retention = absent;
  heartbeat_acknowledgement_intent = absent;
  lifecycle_checkpoint = absent;
  pending_runtime_gap_reconciliation = absent;
  last_runtime_gap_reconciliation = absent;
  pending_startup_reconciliation = absent;
  last_startup_reconciliation = absent;
}

pub data ConfigFile : Type 0 where
  missing no_object : ConfigFile
  object : ConfigDocument → ConfigFile

pub record ConfigWorld : Type 0 where
  pub generation : Option StoreGeneration
  pub config : ConfigFile

-- The outcomes that the operating system chooses in one call.
pub record ConfigPlatform : Type 0 where
  pub shared_request : Result StoreError (Unit {0})
  pub configuration_lock : Result StoreError (Unit {0})
  pub read_config : Result StoreError (Unit {0})
  pub before_rename : Result StoreError (Unit {0})
  pub directory_sync : Result StoreError (Unit {0})

abbrev pub calm_config : ConfigPlatform
calm_config = record {
  shared_request = ok tt;
  configuration_lock = ok tt;
  read_config = ok tt;
  before_rename = ok tt;
  directory_sync = ok tt;
}

abbrev pub ConfigAction : Type 0 → Type 0
ConfigAction = Action EngineError ConfigWorld

abbrev same_generation : StoreGeneration → StoreGeneration → Bool
same_generation a b =
    a.schema_version == b.schema_version && a.generation == b.generation && a.epoch_id == b.epoch_id

-- `StoreGeneration::load` and `StoreGeneration::ensure_current`.
unfoldable pub judge_generation :
    StoreGeneration → Option StoreGeneration → Result StoreError (Unit {0})
judge_generation expected none = err (io "store-generation")
judge_generation expected (some g) =
    if not (g.schema_version == 1 && not (g.generation == 0))
    then err (invalid_path "invalid store-generation document")
    else if same_generation g expected
    then ok tt
    else err (stale_generation expected.generation g.generation)

unfoldable pub ensure_current : StoreGeneration → ConfigAction (Unit {0})
ensure_current expected w = (map_err store (judge_generation expected w.generation), w)

-- The locks and the check of the generation before a call.
unfoldable pub enter : ConfigPlatform → StoreGeneration → ConfigAction (Unit {0})
enter os g = do
  lift (map_err store os.shared_request)
  ensure_current g
  lift (map_err store os.configuration_lock)

-- `read_document_locked`.
unfoldable pub read_document : ConfigPlatform → ConfigAction ConfigDocument
read_document os = do
  lift (map_err store os.read_config)
  (λ w. elim w.config [
    | missing ↦ (ok empty_document, w)
    | no_object ↦ (err (configuration "config.json must contain a JSON object"), w)
    | object d ↦ (ok d, w)
  ])

-- `ManagedRoot::atomic_write` of config.json.
unfoldable pub write_document : ConfigPlatform → ConfigDocument → ConfigAction (Unit {0})
write_document os d = do
  lift (map_err store os.before_rename)
  (λ w. (ok tt, record w { config = object d }))
  lift (map_err store os.directory_sync)

-- `get`: the text of serde's error is left out.
abbrev pub get : {A : Type 0} → Entry A → Result EngineError (Option A)
get absent = ok none
get malformed = err (configuration "malformed value")
get (present a) = ok (some a)
