-- ===== src/Engine/Runtime/Validate.antt =====
-- crates/chronicle-engine/src/runtime.rs: the checks of requests, and of what config.json holds.
use open_chronicle_next.Base.{
  ℕ, String, Bool, ◌&&◌, ◌||◌, not, Option, none, some, List, [], ◌∷◌, length, ltb, ◌==◌, str_eq,
  if◌then◌else◌,
}
use open_chronicle_next.Base.Outcome.{Result, ok, err, map_err, refuse, require, ◌>>◌}
use open_chronicle_next.Domain.Time.{Instant}
use open_chronicle_next.Domain.Ids.{byte_length, validate_opaque_id}
use open_chronicle_next.Domain.Event.{EventEnvelope, EventPayload, RecordingGap, GapReason}
use open_chronicle_next.Domain.Event.Validate.{validate}
use open_chronicle_next.Engine.Errors.{EngineError, configuration, identifier, aggregation}
use open_chronicle_next.Engine.Config.{
  RuntimeGapReason, PendingRuntimeGapReconciliation, LastRuntimeGapReconciliation,
}
use open_chronicle_next.Engine.Runtime.{
  StartupReconcileRequest, RuntimeGapReconcileRequest, GapLibrary,
}

-- `GapReason::from`.
abbrev pub gap_reason : RuntimeGapReason → GapReason
gap_reason RuntimeGapReason.sleep = GapReason.sleep
gap_reason RuntimeGapReason.storage_outage = GapReason.storage_outage
gap_reason RuntimeGapReason.clock_correction = GapReason.clock_correction

abbrev pub reason_index : GapReason → ℕ
reason_index GapReason.sleep = 0
reason_index GapReason.quit = 1
reason_index GapReason.storage_outage = 2
reason_index GapReason.permission_loss = 3
reason_index GapReason.clock_correction = 4

-- The derived equality of reasons.
abbrev pub same_reason : GapReason → GapReason → Bool
same_reason a b = reason_index a == reason_index b

abbrev pub same_runtime_reason : RuntimeGapReason → RuntimeGapReason → Bool
same_runtime_reason a b = same_reason (gap_reason a) (gap_reason b)

unfoldable pub validate_session_id : String → Result EngineError (Unit {0})
unfolding validate_opaque_id
validate_session_id id = map_err identifier (validate_opaque_id id)

-- The time zone is empty or longer than 128 bytes.
unfoldable pub is_bad_timezone : String → Bool
unfolding byte_length
is_bad_timezone zone = str_eq zone "" || ltb 128 (byte_length zone)

unfoldable pub validate_startup_request : StartupReconcileRequest → Result EngineError (Unit {0})
unfolding validate_session_id is_bad_timezone
validate_startup_request r =
    validate_session_id r.session_id
    >> refuse (is_bad_timezone r.display_timezone)
        (configuration "startup display timezone must be non-empty and bounded")

unfoldable pub validate_runtime_gap_request :
    RuntimeGapReconcileRequest → Result EngineError (Unit {0})
unfolding is_bad_timezone
validate_runtime_gap_request r =
    refuse (is_bad_timezone r.display_timezone)
      (configuration "runtime gap display timezone must be non-empty and bounded")

-- The gap of an event, where it is one.
abbrev pub gap_of : EventPayload → Option RecordingGap
gap_of (EventPayload.observation_attempt a) = none
gap_of (EventPayload.recording_gap gap) = some gap
gap_of (EventPayload.screenshot_lifecycle l) = none

-- `gap_end`.
abbrev pub gap_end : EventEnvelope → Option Instant
gap_end e = elim (gap_of e.payload) [ none ↦ none | some gap ↦ some gap.end ]

-- The boundary that a reconciliation at an instant gives a gap.
abbrev pub boundary_matches : RuntimeGapReason → Instant → RecordingGap → Bool
boundary_matches reason at gap =
    if same_runtime_reason reason RuntimeGapReason.clock_correction && ltb at gap.end
    then gap.start == at
    else gap.end == at

unfoldable pub check_pending_gap :
    PendingRuntimeGapReconciliation → Option RecordingGap → Result EngineError (Unit {0})
check_pending_gap p none = err (configuration "pending runtime gap contains a non-gap event")
check_pending_gap p (some gap) =
    refuse
      (not (same_reason gap.reason (gap_reason p.reason))
        || not (p.gap_event.device_id == p.device_id)
        || not (str_eq p.gap_event.display_timezone p.display_timezone))
      (configuration "pending runtime gap metadata is inconsistent")
    >> require (boundary_matches p.reason p.reconciled_at gap)
        (configuration "pending runtime gap boundary is inconsistent")

unfoldable pub validate_pending_runtime_gap :
    PendingRuntimeGapReconciliation → Result EngineError (Unit {0})
unfolding validate_session_id is_bad_timezone validate check_pending_gap
validate_pending_runtime_gap p =
    validate_session_id p.session_id
    >> refuse (is_bad_timezone p.display_timezone)
        (configuration "pending runtime gap display timezone must be non-empty and bounded")
    >> map_err aggregation (validate p.gap_event)
    >> check_pending_gap p (gap_of p.gap_event.payload)

-- `runtime_gap_request_matches_pending`.
abbrev pub runtime_gap_request_matches_pending :
    RuntimeGapReconcileRequest → PendingRuntimeGapReconciliation → Bool
runtime_gap_request_matches_pending r p =
    same_runtime_reason r.reason p.reason
    && r.device_id == p.device_id
    && str_eq r.display_timezone p.display_timezone
    && r.now == p.reconciled_at

-- `runtime_gap_request_matches_last`.
abbrev pub runtime_gap_request_matches_last :
    RuntimeGapReconcileRequest → String → LastRuntimeGapReconciliation → Bool
runtime_gap_request_matches_last r session_id last =
    str_eq session_id last.session_id
    && same_runtime_reason r.reason last.reason
    && r.device_id == last.device_id
    && str_eq r.display_timezone last.display_timezone
    && r.now == last.reconciled_at

-- `runtime_gap_pending_matches`.
abbrev pub runtime_gap_pending_matches :
    GapLibrary → PendingRuntimeGapReconciliation → PendingRuntimeGapReconciliation → Bool
runtime_gap_pending_matches lib a b =
    str_eq a.session_id b.session_id
    && same_runtime_reason a.reason b.reason
    && a.device_id == b.device_id
    && str_eq a.display_timezone b.display_timezone
    && a.reconciled_at == b.reconciled_at
    && lib.same_event a.gap_event b.gap_event

-- The next gap of a chain whose last gap ends at an instant.
abbrev pub continues : Instant → RecordingGap → Bool
continues prior_end gap =
    if same_reason gap.reason GapReason.clock_correction
    then gap.end == prior_end && ltb gap.start gap.end
    else gap.start == prior_end

unfoldable pub check_gaps : List EventEnvelope → Result EngineError (Unit {0})
unfolding validate
check_gaps [] = ok tt
check_gaps (e ∷ es) = map_err aggregation (validate e) >> elim (gap_of e.payload) [
  | none ↦ err (configuration "pending startup reconciliation contains a non-gap event")
  | some gap ↦ check_gaps es
]

-- Two events that follow each other: the end of the first and the gap of the second.
abbrev check_pair : Option Instant → Option RecordingGap → Result EngineError (Unit {0})
check_pair (some prior_end) (some gap) =
    require (continues prior_end gap) (
      configuration "pending startup gaps must be forward-contiguous or explicit clock corrections")
check_pair _ _ = err (configuration "pending startup reconciliation contains a non-gap event")

unfoldable pub check_chain : List EventEnvelope → Result EngineError (Unit {0})
check_chain [] = ok tt
check_chain (e ∷ []) = ok tt
check_chain (e ∷ f ∷ es) = check_pair (gap_end e) (gap_of f.payload) >> check_chain (f ∷ es)

unfoldable pub validate_pending_gap_events : List EventEnvelope → Result EngineError (Unit {0})
unfolding check_gaps check_chain
validate_pending_gap_events es =
    refuse (length es == 0)
      (configuration "pending startup reconciliation requires at least one gap event")
    >> check_gaps es
    >> check_chain es
