-- ===== src/Engine/Recorder/Tests.antt =====
-- The theorems on the recorder at one session.
use open_chronicle_next.Base.{◌≡◌, ◌≤◌, ◌&&◌, not, refl, Bool, true, false, none, some}
use open_chronicle_next.Base.Outcome.{ok}
use open_chronicle_next.Domain.Grant.{sixty_seconds, twenty_four_hours}
use open_chronicle_next.Domain.Event.{EventEnvelope}
use open_chronicle_next.Domain.Event.Validate.{
  validate, validate_payload, kind_matches, validate_observation,
}
use open_chronicle_next.Domain.Event.Attempt.{
  validate_attempt, validate_content, paused_reason, ocr_consistent, check_idle, matches_axis,
  presence_matches,
}
use open_chronicle_next.Domain.Event.{
  EventKind, EventPayload, AttemptStatus, EvidenceState, PresenceState, OcrState,
  ObservationContent, NoEvidenceReason,
}
use open_chronicle_next.Store.World.{StoreGeneration}
use open_chronicle_next.Store.Storage.{ScreenshotStorageHealth, ScreenshotStorageState}
use open_chronicle_next.Engine.Config.{
  ConfigDocument, ConfigWorld, study, present, object, calm_config, empty_document,
  judge_generation, ensure_current, enter, read_document,
}
use open_chronicle_next.Engine.Study.{
  validate_boundary, check_mode, entry_mode, read_mode_locked, latch, mode_at, judge_mode,
  require_capture,
}
use open_chronicle_next.Engine.Study.Window.{file_mode, in_window}
use open_chronicle_next.Engine.Runtime.{
  new_session, session_state, session_active, recording_preference, read_config,
}
use open_chronicle_next.Engine.Runtime.Document.{file_document}
use open_chronicle_next.Engine.Recorder.{
  CaptureAdmission, RecorderPlatform, capture_admission, paused_attempt, judge_pause,
  require_attempt, require_live_event,
}
use open_chronicle_next.Engine.Recorder.Admission.{is_blocked, capture_admission_lem}
use open_chronicle_next.Engine.Recorder.Live.{attempt_allowed, require_live_event_sound}

abbrev first_generation : StoreGeneration
first_generation = record { schema_version = 1; generation = 1; epoch_id = 0 }

-- A study from 10 to 20, in a session that is open; recording is switched on, or paused.
abbrev document : Bool → ConfigDocument
document enabled = record empty_document {
  recording_mode = present (study 10 20 none);
  recording_preference = present enabled;
  lifecycle_checkpoint = present (new_session "s" 5);
}

abbrev disk : Bool → ConfigWorld
disk enabled = record { generation = some first_generation; config = object (document enabled) }

abbrev plenty : ScreenshotStorageHealth
plenty = record {
  managed_image_bytes = 0;
  available_bytes = 100;
  warning_free_bytes = 10;
  minimum_free_bytes = 5;
  managed_image_quota_bytes = 50;
  journal_reserve_bytes = 1;
  state = ScreenshotStorageState.healthy;
}

capture_admission_lem_example :
    (x : CaptureAdmission) × ((capture_admission calm_config calm_config first_generation
        (ok plenty)
        12
        (disk true)).0
      ≡ ok x)
    × (x.allowed ≡ (
        (session_state (some (new_session "s" 5))).1
        && true
        && in_window (study 10 20 none) 12
        && not (is_blocked plenty.state)))
unfolding judge_generation file_document file_mode entry_mode check_mode validate_boundary
capture_admission_lem_example =
    capture_admission_lem first_generation (disk true) (document true) (study 10 20 none)
      (some (new_session "s" 5)) true sixty_seconds twenty_four_hours plenty 12 refl refl refl refl
      refl refl refl

abbrev calls : RecorderPlatform
calls = record {
  session = calm_config;
  preference = calm_config;
  observed = calm_config;
  present_time = calm_config;
}

-- The attempt that says that the user has paused.
abbrev paused_event : EventEnvelope
paused_event = record {
  schema_version = "1.0";
  event_id = 1;
  device_id = 1;
  scheduled_at = some 11;
  observed_at = 12;
  recorded_at = 13;
  display_timezone = "UTC";
  source = record { adapter = "macos"; version = "1" };
  kind = EventKind.observation_attempt;
  payload = EventPayload.observation_attempt (record {
    cadence_seconds = 30;
    attempt_status = AttemptStatus.skipped;
    evidence_state = EvidenceState.paused;
    presence_state = PresenceState.active;
    idle_seconds = none;
    ocr_state = OcrState.not_run;
    content = ObservationContent.no_evidence NoEvidenceReason.user_paused;
  });
}

require_live_event_sound_example :
    (validate paused_event ≡ ok tt)
    × (paused_event.recorded_at ≤ 14)
    × (in_window (study 10 20 none) 14 ≡ true)
    × (attempt_allowed
          (some (new_session "s" 5))
          false
          (study 10 20 none)
          12
          (paused_attempt paused_event.payload)
        ≡ true)
    × ((require_live_event calls first_generation paused_event 14 (disk false)).1 ≡ disk false)
unfolding require_live_event require_attempt judge_pause session_active recording_preference
    read_config require_capture mode_at latch judge_mode read_mode_locked read_document enter
    ensure_current judge_generation file_document file_mode entry_mode check_mode validate_boundary
    validate validate_payload kind_matches validate_observation validate_attempt validate_content
    ocr_consistent check_idle matches_axis presence_matches paused_reason
require_live_event_sound_example =
    require_live_event_sound calls first_generation paused_event 14 (disk false) (document false)
      (study 10 20 none) (some (new_session "s" 5)) false refl refl refl refl refl
