-- ===== src/Domain/Event.antt =====
-- crates/chronicle-domain/src/event.rs: the types of evidence events. A confidence is a 32-bit
-- float in the source; of it only the test against zero and one is used, so it is that test's
-- result. Fields of types with one value (`intent_state`, `untrusted_evidence`) are left out.
pub mod Attempt
pub mod Validate
use open_chronicle_next.Base.{ℕ, String, Bool, Option, List}
use open_chronicle_next.Domain.Time.{Instant}

pub data EventKind : Type 0 where
  observation_attempt recording_gap screenshot_lifecycle : EventKind

pub data AttemptStatus : Type 0 where
  completed skipped failed : AttemptStatus

pub data EvidenceState : Type 0 where
  captured_new captured_unchanged protected paused unavailable capture_failed : EvidenceState

pub data PresenceState : Type 0 where
  active idle locked asleep unknown : PresenceState

pub data OcrState : Type 0 where
  complete empty partial failed not_run : OcrState

pub data OcrChange : Type 0 where
  new changed unchanged : OcrChange

pub record EvidenceSource : Type 0 where
  pub adapter : String
  pub version : String

-- `confidence` is `none` where the source's is, and else says whether it lies in zero to one.
pub record OcrEvidence : Type 0 where
  pub text : String
  pub change : OcrChange
  pub confidence : Option Bool
  pub engine : EvidenceSource
  pub automatic_language_detection : Bool
  pub recognition_languages : List String

pub record AuthorizedDomainContext : Type 0 where
  pub adapter : String
  pub domain : String

pub record PermittedWindowContext : Type 0 where
  pub application_bundle_id : String
  pub process_name : String
  pub window_title : Option String
  pub authorized_domain : Option AuthorizedDomainContext

pub record ImageDimensions : Type 0 where
  pub width : ℕ
  pub height : ℕ
  pub scale_milli : ℕ

pub record ImageReference : Type 0 where
  pub artifact_id : ℕ
  pub managed_relative_path : String
  pub content_hash : String
  pub dimensions : ImageDimensions
  pub expires_at : Instant

pub record CapturedContent : Type 0 where
  pub context : PermittedWindowContext
  pub content_hash : String
  pub ocr : Option OcrEvidence
  pub image : Option ImageReference

pub record UnchangedContent : Type 0 where
  pub context : PermittedWindowContext
  pub content_hash : String
  pub previous_event_id : ℕ
  pub reused_ocr_event_id : Option ℕ
  pub image_artifact_id : Option ℕ

pub data ProtectedReason : Type 0 where
  secure_input application_excluded title_excluded : ProtectedReason
  chronicle_self foreground_changed : ProtectedReason

pub record ProtectedContent : Type 0 where
  pub reason : ProtectedReason
  pub privacy_policy_version : String

pub data NoEvidenceReason : Type 0 where
  user_paused study_expired permission_denied locked asleep : NoEvidenceReason
  no_exact_window ambiguous_window capture_api_failure : NoEvidenceReason

pub data ObservationContent : Type 0 where
  captured : CapturedContent → ObservationContent
  unchanged : UnchangedContent → ObservationContent
  protected : ProtectedContent → ObservationContent
  no_evidence : NoEvidenceReason → ObservationContent

pub record ObservationAttempt : Type 0 where
  pub cadence_seconds : ℕ
  pub attempt_status : AttemptStatus
  pub evidence_state : EvidenceState
  pub presence_state : PresenceState
  pub idle_seconds : Option ℕ
  pub ocr_state : OcrState
  pub content : ObservationContent

pub data GapReason : Type 0 where
  sleep quit storage_outage permission_loss clock_correction : GapReason

pub record RecordingGap : Type 0 where
  pub start : Instant
  pub end : Instant
  pub reason : GapReason

pub data ScreenshotLifecycleAction : Type 0 where
  write_completed delete_requested delete_completed : ScreenshotLifecycleAction
  missing write_failed : ScreenshotLifecycleAction

pub data ScreenshotDeletionCause : Type 0 where
  retention_expired user_requested : ScreenshotDeletionCause

pub data ScreenshotProjectedState : Type 0 where
  retained delete_pending expired user_deleted missing write_failed : ScreenshotProjectedState

pub record ScreenshotLifecycle : Type 0 where
  pub artifact_id : ℕ
  pub action : ScreenshotLifecycleAction
  pub deletion_cause : Option ScreenshotDeletionCause
  pub projected_state : ScreenshotProjectedState
  pub requested_at : Option Instant
  pub completed_at : Option Instant
  pub source_event_id : ℕ

pub data EventPayload : Type 0 where
  observation_attempt : ObservationAttempt → EventPayload
  recording_gap : RecordingGap → EventPayload
  screenshot_lifecycle : ScreenshotLifecycle → EventPayload

pub record EventEnvelope : Type 0 where
  pub schema_version : String
  pub event_id : ℕ
  pub device_id : ℕ
  pub scheduled_at : Option Instant
  pub observed_at : Instant
  pub recorded_at : Instant
  pub display_timezone : String
  pub source : EvidenceSource
  pub kind : EventKind
  pub payload : EventPayload
