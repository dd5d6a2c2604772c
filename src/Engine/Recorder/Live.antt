-- ===== src/Engine/Recorder/Live.antt =====
-- Which events are taken as they happen.
use open_chronicle_next.Base.{
  ◌≡◌, ◌≤◌, refl, inl, inr, Bool, true, false, ◌&&◌, not, Option, none, some, ltb, if◌then◌else◌,
  arith, Bool-cases,
}
use open_chronicle_next.Base.Outcome.{ok, is_ok, Result-cases}
use open_chronicle_next.Domain.Time.{Instant}
use open_chronicle_next.Domain.Event.{EventEnvelope}
use open_chronicle_next.Domain.Event.Validate.{validate}
use open_chronicle_next.Store.World.{StoreGeneration}
use open_chronicle_next.Engine.Config.{
  ConfigDocument, ConfigWorld, ConfigPlatform, RuntimeSession, RecordingMode, personal, study,
  ensure_current, enter, read_document,
}
use open_chronicle_next.Engine.Study.{
  read_mode_locked, latch, mode_at, judge_mode, require_capture, elapsed, latched,
}
use open_chronicle_next.Engine.Study.Window.{file_mode, config_mode, in_window}
use open_chronicle_next.Engine.Study.Latch.{read_same}
use open_chronicle_next.Engine.Runtime.{
  session_state, current_session, value_or, session_active, recording_preference, read_config,
}
use open_chronicle_next.Engine.Runtime.Document.{file_document}
use open_chronicle_next.Engine.Recorder.{
  RecorderPlatform, paused_attempt, judge_pause, require_attempt, require_live_event,
}

mode_found :
    (os : ConfigPlatform) (w : ConfigWorld) (m n : RecordingMode)
    → config_mode w ≡ ok m
    → (read_mode_locked os w).0 ≡ ok n
    → n ≡ m
unfolding read_mode_locked read_document file_mode
mode_found os w m n held h = ground arith

judged_window :
    (os : ConfigPlatform) (g : StoreGeneration) (m : RecordingMode) (now : Instant)
    → elapsed m now ≡ false
    → judge_mode os g m now ≡ ok tt
    → in_window m now ≡ true
unfolding judge_mode
judged_window os g personal now runs h = refl
judged_window os g (study start end none) now runs h = ground arith
judged_window os g (study start end (some x)) now runs h = absurd (ground arith)

latched_refused :
    (os : ConfigPlatform) (g : StoreGeneration) (m : RecordingMode) (now : Instant)
    → elapsed m now ≡ true
    → is_ok (judge_mode os g (latched m now) now) ≡ false
unfolding judge_mode
latched_refused os g personal now over = ground arith
latched_refused os g (study start end none) now over = refl
latched_refused os g (study start end (some x)) now over = refl

-- Capture that is admitted is admitted by the mode on disk, which stays as it is.
require_capture_sound :
    (os : ConfigPlatform) (g : StoreGeneration) (w : ConfigWorld) (m : RecordingMode)
    (now : Instant)
    → config_mode w ≡ ok m
    → (require_capture os g now w).0 ≡ ok tt
    → (in_window m now ≡ true) × ((require_capture os g now w).1 ≡ w)
unfolding require_capture mode_at enter ensure_current latch
require_capture_sound os g w m now held h =
    let same = read_same os w in
    elim (Result-cases (read_mode_locked os w).0) [
      | inr (e, failed) ↦ absurd (ground arith)
      | inl (n, read) ↦
          let is = mode_found os w m n held read in
          elim (Bool-cases (elapsed m now)) [
            | inl over ↦ let no = latched_refused os g m now over in absurd (ground arith)
            | inr runs ↦ let inside = judged_window os g m now runs in (ground arith, ground arith)
          ]
    ]

active_found :
    (os : ConfigPlatform) (g : StoreGeneration) (w : ConfigWorld) (d : ConfigDocument)
    (session : Option RuntimeSession)
    → file_document w.config ≡ ok d
    → current_session d ≡ ok session
    → ((session_active os g w).1 ≡ w)
      × ((b : Bool) → (session_active os g w).0 ≡ ok b → b ≡ (session_state session).1)
unfolding session_active read_config enter ensure_current read_document file_document
active_found os g w d session read running = (ground arith, λ b h. ground arith)

preference_found :
    (os : ConfigPlatform) (g : StoreGeneration) (w : ConfigWorld) (d : ConfigDocument)
    (enabled : Bool)
    → file_document w.config ≡ ok d
    → value_or false d.recording_preference ≡ ok enabled
    → ((recording_preference os g w).1 ≡ w)
      × ((b : Bool) → (recording_preference os g w).0 ≡ ok b → b ≡ enabled)
unfolding recording_preference read_config enter ensure_current read_document file_document
preference_found os g w d enabled read prefers = (ground arith, λ b h. ground arith)

-- An observation attempt is allowed in an open session, by the preference that it tells of, and at
-- an instant at which the recording mode allows capture.
abbrev pub attempt_allowed :
    Option RuntimeSession → (enabled : Bool) → RecordingMode → Instant → Option Bool → Bool
attempt_allowed session enabled m observed none = true
attempt_allowed session enabled m observed (some paused) =
    (session_state session).1 && (if paused then not enabled else enabled) && in_window m observed

judged_pause :
    (enabled paused : Bool)
    → judge_pause enabled paused ≡ ok tt
    → (if paused then not enabled else enabled) ≡ true
unfolding judge_pause
judged_pause true true h = absurd (ground arith)
judged_pause true false h = refl
judged_pause false true h = refl
judged_pause false false h = absurd (ground arith)

attempt_sound :
    (os : RecorderPlatform) (g : StoreGeneration) (w : ConfigWorld) (d : ConfigDocument)
    (m : RecordingMode) (session : Option RuntimeSession) (enabled : Bool) (observed : Instant)
    (attempt : Option Bool)
    → file_document w.config ≡ ok d
    → config_mode w ≡ ok m
    → current_session d ≡ ok session
    → value_or false d.recording_preference ≡ ok enabled
    → (require_attempt os g observed attempt w).0 ≡ ok tt
    → (attempt_allowed session enabled m observed attempt ≡ true)
      × ((require_attempt os g observed attempt w).1 ≡ w)
unfolding require_attempt
attempt_sound os g w d m session enabled observed none read held running prefers h = (refl, refl)
attempt_sound os g w d m session enabled observed (some paused) read held running prefers h =
    let (same, is) = active_found os.session g w d session read running in
    let (kept, switch) = preference_found os.preference g w d enabled read prefers in
    let window = require_capture_sound os.observed g w m observed held in
    let pause = judged_pause enabled paused in
    elim (Result-cases (session_active os.session g w).0) [
      | inr (e, failed) ↦ absurd (ground (arith, h, failed))
      | inl (active, found) ↦ elim (Result-cases (recording_preference os.preference g w).0) [
        | inr (e, failed) ↦ absurd (ground (arith, h, found, same, failed))
        | inl (on, wanted) ↦
            let session_is = is active found in
            let on_is = switch on wanted in
            (
              ground (arith, h, found, same, wanted, kept, session_is, on_is, pause, window),
              ground (arith, h, found, same, wanted, kept, window),
            )
      ]
    ]

-- An event that is taken as it happens is valid, was not recorded in the future, and comes at an
-- instant at which the recording mode allows capture. An observation attempt also has an open
-- session, was made while capture was allowed, and says that the user has paused exactly where the
-- preference is off. The question changes nothing.
pub require_live_event_sound :
    (os : RecorderPlatform) (g : StoreGeneration) (event : EventEnvelope) (now : Instant)
    (w : ConfigWorld) (d : ConfigDocument) (m : RecordingMode) (session : Option RuntimeSession)
    (enabled : Bool)
    → file_document w.config ≡ ok d
    → config_mode w ≡ ok m
    → current_session d ≡ ok session
    → value_or false d.recording_preference ≡ ok enabled
    → (require_live_event os g event now w).0 ≡ ok tt
    → (validate event ≡ ok tt)
      × (event.recorded_at ≤ now)
      × (in_window m now ≡ true)
      × (attempt_allowed session enabled m event.observed_at (paused_attempt event.payload) ≡ true)
      × ((require_live_event os g event now w).1 ≡ w)
unfolding require_live_event
require_live_event_sound os g event now w d m session enabled read held running prefers h =
    elim (Result-cases (validate event)) [
      | inr (e, failed) ↦ absurd (ground (arith, h, failed))
      | inl (tt, valid) ↦ elim (Bool-cases (ltb now event.recorded_at)) [
        | inl future ↦ absurd (ground (arith, h, valid, future))
        | inr past ↦
            let attempt =
              attempt_sound os g w d m session enabled event.observed_at
                (paused_attempt event.payload) read held running prefers in
            elim (Result-cases
              (require_attempt os g event.observed_at (paused_attempt event.payload) w).0) [
                | inr (e, failed) ↦ absurd (ground (arith, h, valid, past, failed))
                | inl (tt, taken) ↦
                    let (fits, same) = attempt taken in
                    let window = require_capture_sound os.present_time g w m now held in
                    (
                      valid,
                      ground (arith, past),
                      ground (arith, h, valid, past, taken, same, window),
                      fits,
                      ground (arith, h, valid, past, taken, same, window),
                    )
              ]
      ]
    ]
