-- ===== src/Domain/Event/Validate.antt =====
-- crates/chronicle-domain/src/event.rs: `EventEnvelope::validate`.
use open_chronicle_next.Base.{
  String, Bool, true, false, ◌&&◌, ◌||◌, not, Option, none, some, ltb, leb,
}
use open_chronicle_next.Base.Outcome.{Result, err, ◌>>◌, refuse, require}
use open_chronicle_next.Domain.Time.{Instant}
use open_chronicle_next.Domain.Event.{
  EventKind, ObservationContent, ObservationAttempt, ScreenshotLifecycleAction,
  ScreenshotDeletionCause, ScreenshotProjectedState, ScreenshotLifecycle, EventPayload,
  EventEnvelope,
}
use open_chronicle_next.Domain.Event.Attempt.{is_empty, is_some, some_and, validate_attempt}

-- `kind_matches`.
unfoldable pub kind_matches : EventKind → EventPayload → Bool
kind_matches EventKind.observation_attempt (EventPayload.observation_attempt a) = true
kind_matches EventKind.recording_gap (EventPayload.recording_gap g) = true
kind_matches EventKind.screenshot_lifecycle (EventPayload.screenshot_lifecycle l) = true
kind_matches _ _ = false

-- `state_matches`.
unfoldable pub state_matches :
    ScreenshotLifecycleAction → Option ScreenshotDeletionCause → ScreenshotProjectedState → Bool
state_matches ScreenshotLifecycleAction.write_completed none ScreenshotProjectedState.retained =
    true
state_matches ScreenshotLifecycleAction.delete_requested (some c)
      ScreenshotProjectedState.delete_pending =
    true
state_matches ScreenshotLifecycleAction.delete_completed
      (some ScreenshotDeletionCause.user_requested) ScreenshotProjectedState.user_deleted =
    true
state_matches ScreenshotLifecycleAction.delete_completed
      (some ScreenshotDeletionCause.retention_expired) ScreenshotProjectedState.expired =
    true
state_matches ScreenshotLifecycleAction.missing none ScreenshotProjectedState.missing = true
state_matches ScreenshotLifecycleAction.write_failed none ScreenshotProjectedState.write_failed =
    true
state_matches _ _ _ = false

abbrev before : Option Instant → Option Instant → Bool
before (some a) (some b) = ltb a b
before _ _ = false

-- The match on the action and its times.
unfoldable pub check_times :
    ScreenshotLifecycleAction → (requested completed : Bool) → Result String (Unit {0})
check_times ScreenshotLifecycleAction.delete_requested requested done =
    refuse (not requested || done) "delete-requested requires requested_at without completed_at"
check_times ScreenshotLifecycleAction.delete_completed requested done =
    refuse (not requested || not done) "delete-completed requires requested_at and completed_at"
check_times _ requested done =
    refuse requested "non-deletion lifecycle action cannot carry requested_at"
    >> refuse (not done) "terminal screenshot lifecycle action requires completed_at"

abbrev is_delete_request : ScreenshotLifecycleAction → Bool
is_delete_request a = elim a [ ScreenshotLifecycleAction.delete_requested ↦ true | _ ↦ false ]

-- The time is outside the event's observation interval.
abbrev outside : (observed recorded at : Instant) → Bool
outside observed recorded at = ltb at observed || ltb recorded at

unfoldable pub validate_lifecycle :
    (observed recorded : Instant) → ScreenshotLifecycle → Result String (Unit {0})
unfolding state_matches check_times
validate_lifecycle observed recorded l =
    require (state_matches l.action l.deletion_cause l.projected_state)
      "screenshot lifecycle action and state disagree"
    >> check_times l.action (is_some l.requested_at) (is_some l.completed_at)
    >> refuse (before l.completed_at l.requested_at) "delete completion cannot precede its request"
    >> refuse (is_delete_request l.action && some_and (outside observed recorded) l.requested_at)
        "delete request time must be within its event observation interval"
    >> refuse (some_and (outside observed recorded) l.completed_at)
        "lifecycle completion time must be within its event observation interval"

-- The expiry of a captured image, where the content has one.
abbrev pub expires_early : (recorded : Instant) → ObservationContent → Bool
expires_early recorded (ObservationContent.captured c) =
    some_and (λ i. leb i.expires_at recorded) c.image
expires_early recorded _ = false

unfoldable pub validate_observation : EventEnvelope → ObservationAttempt → Result String (Unit {0})
unfolding validate_attempt
validate_observation e a = elim e.scheduled_at [
  | none ↦ err "observation attempts require scheduled_at"
  | some at ↦
      refuse (ltb e.observed_at at) "observed_at must not precede scheduled_at"
      >> validate_attempt a
      >> refuse (expires_early e.recorded_at a.content) "image expiry must follow event recording"
]

abbrev check_unscheduled : EventEnvelope → Result String (Unit {0})
check_unscheduled e =
    refuse (is_some e.scheduled_at) "gap and lifecycle records cannot be scheduled attempts"

-- The checks that depend on the payload.
unfoldable pub validate_payload : EventEnvelope → Result String (Unit {0})
unfolding validate_observation validate_lifecycle
validate_payload e = elim e.payload [
  | EventPayload.observation_attempt a ↦ validate_observation e a
  | EventPayload.recording_gap g ↦
      check_unscheduled e >> refuse (leb g.end g.start) "gap start must precede end"
  | EventPayload.screenshot_lifecycle l ↦
      check_unscheduled e >> validate_lifecycle e.observed_at e.recorded_at l
]

-- `EventEnvelope::validate`.
unfoldable pub validate : EventEnvelope → Result String (Unit {0})
unfolding kind_matches validate_payload
validate e =
    refuse (ltb e.recorded_at e.observed_at) "recorded_at must not precede observed_at"
    >> require (kind_matches e.kind e.payload) "event kind and payload type disagree"
    >> validate_payload e
    >> refuse
        (is_empty e.display_timezone || is_empty e.source.adapter || is_empty e.source.version)
        "event timezone and source fields must be non-empty"
