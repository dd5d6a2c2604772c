-- ===== src/Engine/Recorder.antt =====
-- crates/chronicle-engine/src/study.rs: the questions of the recorder that compose the runtime, the
-- study and the screenshot storage. The outcome of `storage_health`, which reads the disk, is given.
pub mod Admission
pub mod Live
mod Tests
use open_chronicle_next.Base.{Bool, true, false, ◌&&◌, not, Option, none, some, ltb, if◌then◌else◌}
use open_chronicle_next.Base.Outcome.{Result, ok, err, map_err, refuse}
use open_chronicle_next.Base.Action.{pure, raise, lift, ◌>>=◌, ◌>>◌}
use open_chronicle_next.Domain.Time.{Instant}
use open_chronicle_next.Domain.Event.{
  EventEnvelope, EventPayload, ObservationContent, NoEvidenceReason,
}
use open_chronicle_next.Domain.Event.Validate.{validate}
use open_chronicle_next.Store.World.{StoreGeneration}
use open_chronicle_next.Store.Storage.{ScreenshotStorageState, ScreenshotStorageHealth}
use open_chronicle_next.Engine.Errors.{EngineError, aggregation, configuration}
use open_chronicle_next.Engine.Config.{ConfigAction, ConfigPlatform}
use open_chronicle_next.Engine.Study.{require_capture}
use open_chronicle_next.Engine.Runtime.{
  RuntimeConfigState, state, recording_preference, session_active,
}

pub data CaptureAdmissionReason : Type 0 where
  allowed runtime_inactive user_paused study_not_started study_expired : CaptureAdmissionReason
  storage_free_space storage_image_quota : CaptureAdmissionReason

pub record CaptureAdmission : Type 0 where
  pub allowed : Bool
  pub reason : CaptureAdmissionReason

abbrev pub denied : CaptureAdmissionReason → Result EngineError CaptureAdmission
denied reason = ok (record { allowed = false; reason = reason })

-- The reason that the state of the storage gives.
abbrev pub storage_admission : ScreenshotStorageState → Result EngineError CaptureAdmission
storage_admission ScreenshotStorageState.blocked_free_space =
    denied CaptureAdmissionReason.storage_free_space
storage_admission ScreenshotStorageState.blocked_image_quota =
    denied CaptureAdmissionReason.storage_image_quota
storage_admission ScreenshotStorageState.healthy =
    ok (record { allowed = true; reason = CaptureAdmissionReason.allowed })
storage_admission ScreenshotStorageState.warning =
    ok (record { allowed = true; reason = CaptureAdmissionReason.allowed })

-- The match on the result of `require_capture`.
unfoldable pub judge_capture :
    Result EngineError ScreenshotStorageHealth
    → Result EngineError (Unit {0})
    → Result EngineError CaptureAdmission
judge_capture (ok storage) (ok done) = storage_admission storage.state
judge_capture (err e) (ok done) = err e
judge_capture storage (err EngineError.study_not_started) =
    denied CaptureAdmissionReason.study_not_started
judge_capture storage (err EngineError.study_expired) = denied CaptureAdmissionReason.study_expired
judge_capture storage (err e) = err e

-- The questions that only the state of the runtime decides.
unfoldable pub judge_runtime : RuntimeConfigState → Option CaptureAdmissionReason
judge_runtime s =
    if not s.session_active
    then some CaptureAdmissionReason.runtime_inactive
    else if not s.recording_preference
    then some CaptureAdmissionReason.user_paused
    else none

-- `match self.study.require_capture(now)`.
unfoldable pub capture_by_study :
    ConfigPlatform
    → StoreGeneration
    → Result EngineError ScreenshotStorageHealth
    → Instant
    → ConfigAction CaptureAdmission
unfolding judge_capture
capture_by_study os g storage now w =
    let (r, w') = require_capture os g now w in (judge_capture storage r, w')

unfoldable pub continue_admission :
    ConfigPlatform
    → StoreGeneration
    → Result EngineError ScreenshotStorageHealth
    → Instant
    → Option CaptureAdmissionReason
    → ConfigAction CaptureAdmission
unfolding capture_by_study
continue_admission os g storage now (some reason) = lift (denied reason)
continue_admission os g storage now none = capture_by_study os g storage now

-- `capture_admission`; the two calls that read config.json have their own outcomes.
unfoldable pub capture_admission :
    (reads asks : ConfigPlatform)
    → StoreGeneration
    → Result EngineError ScreenshotStorageHealth
    → Instant
    → ConfigAction CaptureAdmission
unfolding judge_runtime continue_admission
capture_admission reads asks g storage now = do
  s ← state reads g
  continue_admission asks g storage now (judge_runtime s)

-- The event is an observation attempt, and then whether it says that the user has paused.
abbrev pub paused_attempt : EventPayload → Option Bool
paused_attempt (EventPayload.observation_attempt a) = elim a.content [
  | ObservationContent.no_evidence NoEvidenceReason.user_paused ↦ some true
  | _ ↦ some false
]
paused_attempt (EventPayload.recording_gap gap) = none
paused_attempt (EventPayload.screenshot_lifecycle l) = none

-- The match on the preference and the attempt.
unfoldable pub judge_pause : (preference paused : Bool) → Result EngineError (Unit {0})
judge_pause false false =
    err (configuration "recording is paused; only a user-paused factual attempt is allowed")
judge_pause true true =
    err (configuration "user-paused factual attempt is stale because recording is not paused")
judge_pause _ _ = ok tt

-- The outcomes of the platform in the calls of one question.
pub record RecorderPlatform : Type 0 where
  pub session : ConfigPlatform
  pub preference : ConfigPlatform
  pub observed : ConfigPlatform
  pub present_time : ConfigPlatform

-- The part that concerns an observation attempt.
unfoldable pub require_attempt :
    RecorderPlatform → StoreGeneration → Instant → Option Bool → ConfigAction (Unit {0})
unfolding judge_pause
require_attempt os g observed none = pure tt
require_attempt os g observed (some paused) = do
  active ← session_active os.session g
  lift (refuse (not active) (configuration "recording runtime session is inactive"))
  preference ← recording_preference os.preference g
  lift (judge_pause preference paused)
  require_capture os.observed g observed

-- `require_live_event`.
unfoldable pub require_live_event :
    RecorderPlatform → StoreGeneration → EventEnvelope → Instant → ConfigAction (Unit {0})
unfolding require_attempt
require_live_event os g event now = do
  lift (map_err aggregation (validate event))
  lift (
      refuse (ltb now event.recorded_at)
        (configuration "live recording event cannot be from the future"))
  require_attempt os g event.observed_at (paused_attempt event.payload)
  require_capture os.present_time g now
