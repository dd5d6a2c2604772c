-- ===== src/Engine/Recorder/Admission.antt =====
-- When capture is admitted.
use open_chronicle_next.Base.{
  ◌≡◌, refl, inl, inr, Bool, true, false, ◌&&◌, not, Option, none, some, ltb, leb, arith,
  Bool-cases,
}
use open_chronicle_next.Base.Outcome.{ok}
use open_chronicle_next.Domain.Time.{Instant}
use open_chronicle_next.Domain.Grant.{
  CaptureCadence, ScreenshotRetention, sixty_seconds, twenty_four_hours,
}
use open_chronicle_next.Store.World.{StoreGeneration}
use open_chronicle_next.Store.Storage.{ScreenshotStorageState, ScreenshotStorageHealth}
use open_chronicle_next.Engine.Config.{
  ConfigDocument, ConfigWorld, RuntimeSession, RecordingMode, personal, study, calm_config,
  judge_generation, ensure_current, enter, read_document,
}
use open_chronicle_next.Engine.Study.{mode_at, judge_mode, require_capture}
use open_chronicle_next.Engine.Study.Window.{config_mode, in_window, noticed, latch_calm, mode_read}
use open_chronicle_next.Engine.Runtime.{
  session_state, current_session, value_or, state, read_config,
}
use open_chronicle_next.Engine.Runtime.Document.{file_document}
use open_chronicle_next.Engine.Recorder.{
  CaptureAdmission, CaptureAdmissionReason, judge_capture, judge_runtime, capture_by_study,
  continue_admission, capture_admission, storage_admission,
}

-- By calls that succeed, the question is decided by the mode once it has been asked.
require_capture_calm :
    (g : StoreGeneration) (w : ConfigWorld) (m : RecordingMode) (now : Instant)
    → judge_generation g w.generation ≡ ok tt
    → config_mode w ≡ ok m
    → (require_capture calm_config g now w).0 ≡ judge_mode calm_config g (noticed m now) now
unfolding require_capture mode_at enter ensure_current
require_capture_calm g w m now current held =
    let read = mode_read w in let (result, written) = latch_calm m now w held in ground arith

-- The storage takes no more screenshots.
abbrev pub is_blocked : ScreenshotStorageState → Bool
is_blocked ScreenshotStorageState.healthy = false
is_blocked ScreenshotStorageState.warning = false
is_blocked ScreenshotStorageState.blocked_free_space = true
is_blocked ScreenshotStorageState.blocked_image_quota = true

storage_judged :
    (st : ScreenshotStorageState)
    → (x : CaptureAdmission) × (storage_admission st ≡ ok x) × (x.allowed ≡ not (is_blocked st))
storage_judged ScreenshotStorageState.healthy = (_, refl, refl)
storage_judged ScreenshotStorageState.warning = (_, refl, refl)
storage_judged ScreenshotStorageState.blocked_free_space = (_, refl, refl)
storage_judged ScreenshotStorageState.blocked_image_quota = (_, refl, refl)

judged :
    (g : StoreGeneration) (m : RecordingMode) (now : Instant) (storage : ScreenshotStorageHealth)
    → (x : CaptureAdmission) × (judge_capture
          (ok storage)
          (judge_mode calm_config g (noticed m now) now)
        ≡ ok x)
      × (x.allowed ≡ (in_window m now && not (is_blocked storage.state)))
unfolding judge_capture judge_mode
judged g personal now storage = storage_judged storage.state
judged g (study start end (some x)) now storage = (_, refl, refl)
judged g (study start end none) now storage =
    let (x, out, decides) = storage_judged storage.state in
    elim (Bool-cases (leb end now)) [
      | inl over ↦ (
        record { allowed = false; reason = CaptureAdmissionReason.study_expired },
        ground (arith, over),
        ground (arith, over),
      )
      | inr running ↦ elim (Bool-cases (ltb now start)) [
        | inl early ↦ (
          record { allowed = false; reason = CaptureAdmissionReason.study_not_started },
          ground (arith, running, early),
          ground (arith, running, early),
        )
        | inr started ↦
            (x, ground (arith, out, started, running), ground (arith, decides, started, running))
      ]
    ]

-- What the state of the runtime is read as.
state_calm :
    (g : StoreGeneration) (w : ConfigWorld) (d : ConfigDocument) (session : Option RuntimeSession)
    (enabled : Bool) (cadence : CaptureCadence) (retention : ScreenshotRetention)
    → judge_generation g w.generation ≡ ok tt
    → file_document w.config ≡ ok d
    → current_session d ≡ ok session
    → value_or false d.recording_preference ≡ ok enabled
    → value_or sixty_seconds d.capture_cadence ≡ ok cadence
    → value_or twenty_four_hours d.screenshot_retention ≡ ok retention
    → state calm_config g w ≡ (
      ok (record {
        recording_preference = enabled;
        cadence = cadence;
        screenshot_retention = retention;
        session_id = (session_state session).0;
        session_active = (session_state session).1;
      }),
      w,
    )
unfolding state read_config enter ensure_current read_document file_document
state_calm g w d session enabled cadence retention current read running prefers paces keeps =
    ground arith

-- Where the platform's calls succeed, the generation is current and config.json can be read, the
-- question whether to capture has an answer. It is yes exactly where a session is open, recording
-- is switched on, the recording mode allows capture at that instant and the storage is not blocked.
pub capture_admission_lem :
    (g : StoreGeneration) (w : ConfigWorld) (d : ConfigDocument) (m : RecordingMode)
    (session : Option RuntimeSession) (enabled : Bool) (cadence : CaptureCadence)
    (retention : ScreenshotRetention) (storage : ScreenshotStorageHealth) (now : Instant)
    → judge_generation g w.generation ≡ ok tt
    → file_document w.config ≡ ok d
    → config_mode w ≡ ok m
    → current_session d ≡ ok session
    → value_or false d.recording_preference ≡ ok enabled
    → value_or sixty_seconds d.capture_cadence ≡ ok cadence
    → value_or twenty_four_hours d.screenshot_retention ≡ ok retention
    → (x : CaptureAdmission) × ((capture_admission calm_config calm_config g (ok storage) now w).0
        ≡ ok x)
      × (x.allowed ≡ (
          (session_state session).1
          && enabled
          && in_window m now
          && not (is_blocked storage.state)))
unfolding capture_admission judge_runtime continue_admission capture_by_study
capture_admission_lem g w d m session enabled cadence retention storage now current read held
      running prefers paces keeps =
    let reads =
      state_calm g w d session enabled cadence retention current read running prefers paces keeps in
    elim (Bool-cases (session_state session).1) [
      | inr closed ↦ (
        record { allowed = false; reason = CaptureAdmissionReason.runtime_inactive },
        ground (arith, reads, closed),
        ground (arith, closed),
      )
      | inl active ↦ elim (Bool-cases enabled) [
        | inr off ↦ (
          record { allowed = false; reason = CaptureAdmissionReason.user_paused },
          ground (arith, reads, active, off),
          ground (arith, active, off),
        )
        | inl on ↦
            let (x, out, decides) = judged g m now storage in
            let asked = require_capture_calm g w m now current held in
            (x, ground (arith, reads, active, on, out, asked), ground (arith, decides, active, on))
      ]
    ]
