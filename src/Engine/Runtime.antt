-- ===== src/Engine/Runtime.antt =====
-- crates/chronicle-engine/src/runtime.rs: `RuntimeController`. Every call is one action on
-- config.json. A digest, and an identifier made of one, is a number that the hash library gives.
pub mod Validate
pub mod Startup
pub mod Gap
pub mod Heartbeat
pub mod Termination
pub mod Document
pub mod Modest
pub mod Frame
pub mod Chain
pub mod Restart
pub mod Retry
pub mod Beat
pub mod Correction
pub mod Awaited
pub mod Progress
mod Tests
use open_chronicle_next.Base.{
  ℕ, String, Bool, true, false, not, Option, none, some, List, ◌==◌, if◌then◌else◌,
}
use open_chronicle_next.Base.Outcome.{Result, ok, err, map_err}
use open_chronicle_next.Base.Action.{pure, lift, ◌>>=◌, ◌>>◌}
use open_chronicle_next.Domain.Time.{Instant}
use open_chronicle_next.Domain.Grant.{
  CaptureCadence, ScreenshotRetention, sixty_seconds, twenty_four_hours,
}
use open_chronicle_next.Domain.Event.{EventEnvelope, GapReason}
use open_chronicle_next.Store.World.{StoreGeneration}
use open_chronicle_next.Engine.Errors.{EngineError, configuration}
use open_chronicle_next.Engine.Config.{
  Entry, absent, malformed, present, RuntimeSession, RuntimeGapReason,
  PendingRuntimeGapReconciliation, ConfigDocument, ConfigAction, ConfigPlatform, enter,
  read_document, write_document, get,
}

pub record RuntimeFaultInjector : Type 0 where
  pub fail_before_checkpoint_write : Bool

-- `RuntimeFaultInjector::check_checkpoint_write`.
abbrev pub check_checkpoint_write : RuntimeFaultInjector → Result EngineError (Unit {0})
check_checkpoint_write f =
    if f.fail_before_checkpoint_write
    then err (configuration "injected failure before runtime checkpoint write")
    else ok tt

-- `RuntimeSession::new`.
abbrev pub new_session : String → Instant → RuntimeSession
new_session id now = record {
  session_id = id;
  started_at = now;
  last_heartbeat_at = now;
  closed_at = none;
}

abbrev pub is_open : RuntimeSession → Bool
is_open s = elim s.closed_at [ none ↦ true | some at ↦ false ]

-- `current_session`.
abbrev pub current_session : ConfigDocument → Result EngineError (Option RuntimeSession)
current_session d = get d.lifecycle_checkpoint

-- `map(...).unwrap_or(default)` on a value that is read.
abbrev pub value_or : {A : Type 0} → A → Entry A → Result EngineError A
value_or default absent = ok default
value_or default malformed = err (configuration "malformed value")
value_or default (present a) = ok a

pub record RuntimeConfigState : Type 0 where
  pub recording_preference : Bool
  pub cadence : CaptureCadence
  pub screenshot_retention : ScreenshotRetention
  pub session_id : Option String
  pub session_active : Bool

abbrev pub session_state : Option RuntimeSession → Option String × Bool
session_state none = (none, false)
session_state (some s) = (some s.session_id, is_open s)

-- `read_document`.
unfoldable pub read_config : ConfigPlatform → StoreGeneration → ConfigAction ConfigDocument
read_config os g = do enter os g; read_document os

-- A call that reads only.
unfoldable pub read_result :
    {A : Type 0}
    → ConfigPlatform
    → StoreGeneration
    → (ConfigDocument → Result EngineError A)
    → ConfigAction A
read_result os g question = do d ← read_config os g; lift (question d)

abbrev pub Update : Type 0 → Type 0
Update A = ConfigDocument → Result EngineError (A × ConfigDocument)

-- `update_document_with_result`: what the update returns for a document, and the document it leaves.
-- An update that fails writes nothing.
unfoldable pub update_document :
    {A : Type 0} → ConfigPlatform → StoreGeneration → Update A → ConfigAction A
update_document os g update = do
  enter os g
  d ← read_document os
  changed ← lift (update d)
  write_document os changed.1
  pure changed.0

-- A call whose arguments are checked first.
abbrev pub checked : {A : Type 0} → Result EngineError (Unit {0}) → ConfigAction A → ConfigAction A
checked check call = lift check >> call

module _ (os : ConfigPlatform) (g : StoreGeneration) where
  -- `state`.
  unfoldable pub state : ConfigAction RuntimeConfigState
  state = do
    d ← read_config os g
    session ← lift (current_session d)
    preference ← lift (value_or false d.recording_preference)
    cadence ← lift (value_or sixty_seconds d.capture_cadence)
    retention ← lift (value_or twenty_four_hours d.screenshot_retention)
    pure (record {
      recording_preference = preference;
      cadence = cadence;
      screenshot_retention = retention;
      session_id = (session_state session).0;
      session_active = (session_state session).1;
    })

  -- `recording_preference`.
  unfoldable pub recording_preference : ConfigAction Bool
  recording_preference = do d ← read_config os g; lift (value_or false d.recording_preference)

  -- `session_active`.
  unfoldable pub session_active : ConfigAction Bool
  session_active = do
    d ← read_config os g
    session ← lift (current_session d)
    pure (session_state session).1

  -- `set_recording_preference`, `set_cadence` and `set_screenshot_retention`.
  unfoldable pub set_recording_preference : Bool → ConfigAction (Unit {0})
  set_recording_preference enabled =
      update_document os g (λ d. ok (tt, record d { recording_preference = present enabled }))

  unfoldable pub set_cadence : CaptureCadence → ConfigAction (Unit {0})
  set_cadence cadence =
      update_document os g (λ d. ok (tt, record d { capture_cadence = present cadence }))

  unfoldable pub set_screenshot_retention : ScreenshotRetention → ConfigAction (Unit {0})
  set_screenshot_retention retention =
      update_document os g (λ d. ok (tt, record d { screenshot_retention = present retention }))

-- `StartupReconcileRequest`.
pub record StartupReconcileRequest : Type 0 where
  pub session_id : String
  pub device_id : ℕ
  pub display_timezone : String
  pub now : Instant

-- `RuntimeGapReconcileRequest`.
pub record RuntimeGapReconcileRequest : Type 0 where
  pub reason : RuntimeGapReason
  pub device_id : ℕ
  pub display_timezone : String
  pub now : Instant

pub record PreparedStartupReconciliation : Type 0 where
  pub gap_events : List EventEnvelope
  pub gap_event_ids : List ℕ

pub record PreparedRuntimeGapReconciliation : Type 0 where
  pub gap_events : List EventEnvelope
  pub gap_event_ids : List ℕ
  pub pending : Option PendingRuntimeGapReconciliation

-- What is generated or foreign: the identifier made of the digest of a gap's parts, and the derived
-- equality of events.
pub record GapLibrary : Type 0 where
  pub startup_gap_id : (start end : Instant) → GapReason → (device_id : ℕ) → String → ℕ
  pub runtime_gap_id :
      (session_id : String) → (start end : Instant) → GapReason → (device_id : ℕ) → String → ℕ
  pub same_event : EventEnvelope → EventEnvelope → Bool
