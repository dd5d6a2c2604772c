-- ===== src/Engine/Runtime/Gap.antt =====
-- crates/chronicle-engine/src/runtime.rs: `pending_runtime_gap`, `prepare_runtime_gap` and
-- `commit_runtime_gap`.
use open_chronicle_next.Base.{
  ℕ, String, ◌&&◌, ◌||◌, not, Option, none, some, List, [], ◌∷◌, min, max, ltb, ◌==◌, str_eq,
  if◌then◌else◌,
}
use open_chronicle_next.Base.Outcome.{Result, ok, err, map_err, ◌>>=◌, ◌>>◌, refuse}
use open_chronicle_next.Domain.Time.{Instant}
use open_chronicle_next.Domain.Event.{EventEnvelope, EventKind, EventPayload}
use open_chronicle_next.Domain.Event.Validate.{validate}
use open_chronicle_next.Store.World.{StoreGeneration}
use open_chronicle_next.Engine.Errors.{EngineError, configuration, aggregation}
use open_chronicle_next.Engine.Config.{
  absent, present, RuntimeSession, RuntimeGapReason, ConfigPlatform, ConfigAction,
  PendingRuntimeGapReconciliation, LastRuntimeGapReconciliation, get,
}
use open_chronicle_next.Engine.Runtime.{
  Update, GapLibrary, RuntimeGapReconcileRequest, PreparedRuntimeGapReconciliation,
  RuntimeFaultInjector, check_checkpoint_write, is_open, current_session, read_result,
  update_document, checked,
}
use open_chronicle_next.Engine.Runtime.Validate.{
  gap_reason, same_runtime_reason, validate_runtime_gap_request, validate_pending_runtime_gap,
  runtime_gap_request_matches_pending, runtime_gap_request_matches_last,
  runtime_gap_pending_matches,
}
use open_chronicle_next.Engine.Runtime.Startup.{contract_version, lifecycle_source, same_ids}

module _ (lib : GapLibrary) where
  -- The event that `runtime_gap_event` checks.
  abbrev pub runtime_gap :
      (start end : Instant) → RuntimeGapReconcileRequest → (session_id : String) → EventEnvelope
  runtime_gap start end r session_id = record {
    schema_version = contract_version;
    event_id =
        lib.runtime_gap_id session_id start end (gap_reason r.reason) r.device_id
          r.display_timezone;
    device_id = r.device_id;
    scheduled_at = none;
    observed_at = r.now;
    recorded_at = r.now;
    display_timezone = r.display_timezone;
    source = lifecycle_source;
    kind = EventKind.recording_gap;
    payload =
        EventPayload.recording_gap
          (record { start = start; end = end; reason = gap_reason r.reason });
  }

  unfoldable pub runtime_gap_event :
      (start end : Instant)
      → RuntimeGapReconcileRequest
      → (session_id : String) → Result EngineError EventEnvelope
  unfolding validate
  runtime_gap_event start end r session_id =
      map_err aggregation (validate (runtime_gap start end r session_id))
      >> ok (runtime_gap start end r session_id)

abbrev pub no_gap : List ℕ → PreparedRuntimeGapReconciliation
no_gap ids = record { gap_events = []; gap_event_ids = ids; pending = none }

abbrev pub pending_gap : PendingRuntimeGapReconciliation → PreparedRuntimeGapReconciliation
pending_gap p = record {
  gap_events = p.gap_event ∷ [];
  gap_event_ids = p.gap_event.event_id ∷ [];
  pending = some p;
}

-- The intent of a gap, checked where there is one.
unfoldable pub checked_pending :
    Option PendingRuntimeGapReconciliation
    → Result EngineError (Option PendingRuntimeGapReconciliation)
unfolding validate_pending_runtime_gap
checked_pending none = ok none
checked_pending (some p) = validate_pending_runtime_gap p >> ok (some p)

-- A request while an intent is unresolved.
unfoldable pub retry_gap :
    RuntimeGapReconcileRequest
    → PendingRuntimeGapReconciliation
    → Update PreparedRuntimeGapReconciliation
unfolding validate_pending_runtime_gap
retry_gap r p d =
    validate_pending_runtime_gap p
    >> refuse (not (runtime_gap_request_matches_pending r p))
        (configuration "a different runtime gap reconciliation is unresolved")
    >> ok (pending_gap p, d)

abbrev pub intent_of :
    RuntimeGapReconcileRequest → RuntimeSession → EventEnvelope → PendingRuntimeGapReconciliation
intent_of r s e = record {
  session_id = s.session_id;
  reason = r.reason;
  device_id = r.device_id;
  display_timezone = r.display_timezone;
  reconciled_at = r.now;
  gap_event = e;
}

-- A request that is not the last one again: the gap from the last heartbeat.
unfoldable pub open_gap :
    GapLibrary
    → RuntimeGapReconcileRequest
    → RuntimeSession
    → Update PreparedRuntimeGapReconciliation
unfolding runtime_gap_event
open_gap lib r s d =
    if r.now == s.last_heartbeat_at
    then ok (no_gap [], d)
    else (refuse
          (ltb r.now s.last_heartbeat_at
            && not (same_runtime_reason r.reason RuntimeGapReason.clock_correction))
          (configuration "backward runtime gaps require clock-correction reason")
        >> (runtime_gap_event lib (min r.now s.last_heartbeat_at) (max r.now s.last_heartbeat_at) r
              s.session_id
            >>= λ e. ok (
              pending_gap (intent_of r s e),
              record d { pending_runtime_gap_reconciliation = present (intent_of r s e) },
            )))

-- The request is the last one that was committed.
abbrev pub repeats :
    RuntimeGapReconcileRequest → String → Option LastRuntimeGapReconciliation → Option (List ℕ)
repeats r id none = none
repeats r id (some last) =
    if runtime_gap_request_matches_last r id last then some last.gap_event_ids else none

unfoldable pub judge_gap :
    GapLibrary
    → RuntimeGapReconcileRequest
    → RuntimeSession
    → Option (List ℕ)
    → Update PreparedRuntimeGapReconciliation
unfolding open_gap
judge_gap lib r s none d = open_gap lib r s d
judge_gap lib r s (some ids) d = ok (no_gap ids, d)

unfoldable pub begin_gap :
    GapLibrary
    → RuntimeGapReconcileRequest
    → Option RuntimeSession
    → Update PreparedRuntimeGapReconciliation
unfolding judge_gap
begin_gap lib r none d = err (configuration "runtime gap reconciliation requires an active session")
begin_gap lib r (some s) d =
    refuse (not (is_open s)) (configuration "runtime gap reconciliation requires an active session")
    >> (get d.last_runtime_gap_reconciliation >>= λ last.
        judge_gap lib r s (repeats r s.session_id last) d)

unfoldable pub gap_step :
    GapLibrary
    → RuntimeGapReconcileRequest
    → Option PendingRuntimeGapReconciliation
    → Update PreparedRuntimeGapReconciliation
unfolding retry_gap begin_gap
gap_step lib r none d = current_session d >>= λ s. begin_gap lib r s d
gap_step lib r (some p) d = retry_gap r p d

unfoldable pub gap_update :
    GapLibrary → RuntimeGapReconcileRequest → Update PreparedRuntimeGapReconciliation
unfolding gap_step
gap_update lib r d = get d.pending_runtime_gap_reconciliation >>= λ p. gap_step lib r p d

-- The session that a commit leaves.
abbrev pub reconciled_session : PendingRuntimeGapReconciliation → RuntimeSession → RuntimeSession
reconciled_session p s = record {
  session_id = s.session_id;
  started_at =
      (if same_runtime_reason p.reason RuntimeGapReason.clock_correction
          && ltb p.reconciled_at s.started_at
        then p.reconciled_at
        else s.started_at);
  last_heartbeat_at = p.reconciled_at;
  closed_at = s.closed_at;
}

abbrev pub last_of : PendingRuntimeGapReconciliation → List ℕ → LastRuntimeGapReconciliation
last_of p ids = record {
  session_id = p.session_id;
  reason = p.reason;
  device_id = p.device_id;
  display_timezone = p.display_timezone;
  reconciled_at = p.reconciled_at;
  gap_event_ids = ids;
}

unfoldable pub close_gap :
    RuntimeFaultInjector
    → List ℕ
    → PendingRuntimeGapReconciliation
    → Option RuntimeSession
    → Update (Unit {0})
close_gap faults ids p none d = err (configuration "runtime gap completion has no active session")
close_gap faults ids p (some s) d =
    refuse (not (str_eq s.session_id p.session_id) || not (is_open s))
      (configuration "runtime gap completion session changed")
    >> check_checkpoint_write faults
    >> (get d.last_runtime_gap_reconciliation >>= λ last. ok (
      tt,
      record d {
        lifecycle_checkpoint = present (reconciled_session p s);
        last_runtime_gap_reconciliation = present (last_of p ids);
        pending_runtime_gap_reconciliation = absent;
      },
    ))

-- The intent on disk is the one that is completed.
unfoldable pub check_completion :
    GapLibrary
    → (expected : PendingRuntimeGapReconciliation) → List ℕ
    → PendingRuntimeGapReconciliation
    → Result EngineError (Unit {0})
unfolding validate_pending_runtime_gap same_ids
check_completion lib expected ids p =
    validate_pending_runtime_gap p
    >> refuse
        (not (runtime_gap_pending_matches lib p expected)
          || not (same_ids ids (p.gap_event.event_id ∷ [])))
        (configuration "runtime gap completion does not match its durable intent")

unfoldable pub finish_gap :
    GapLibrary
    → RuntimeFaultInjector
    → (expected : PendingRuntimeGapReconciliation) → List ℕ
    → Option PendingRuntimeGapReconciliation
    → Update (Unit {0})
unfolding check_completion close_gap
finish_gap lib faults expected ids none d =
    err (configuration "runtime gap completed without a pending intent")
finish_gap lib faults expected ids (some p) d =
    check_completion lib expected ids p >> (current_session d >>= λ s. close_gap faults ids p s d)

unfoldable pub gap_commit :
    GapLibrary → RuntimeFaultInjector → PendingRuntimeGapReconciliation → List ℕ → Update (Unit {0})
unfolding finish_gap
gap_commit lib faults expected ids d =
    get d.pending_runtime_gap_reconciliation >>= λ p. finish_gap lib faults expected ids p d

-- `pending_runtime_gap`.
unfoldable pub pending_runtime_gap :
    ConfigPlatform → StoreGeneration → ConfigAction (Option PendingRuntimeGapReconciliation)
unfolding checked_pending
pending_runtime_gap os g =
    read_result os g (λ d. get d.pending_runtime_gap_reconciliation >>= checked_pending)

module _ (os : ConfigPlatform) (g : StoreGeneration) (lib : GapLibrary) where
  -- `prepare_runtime_gap`.
  unfoldable pub prepare_runtime_gap :
      RuntimeGapReconcileRequest → ConfigAction PreparedRuntimeGapReconciliation
  unfolding gap_update validate_runtime_gap_request
  prepare_runtime_gap r =
      checked (validate_runtime_gap_request r) (update_document os g (gap_update lib r))

  -- `commit_runtime_gap`.
  unfoldable pub commit_runtime_gap :
      PendingRuntimeGapReconciliation → List ℕ → RuntimeFaultInjector → ConfigAction (Unit {0})
  unfolding gap_commit validate_pending_runtime_gap
  commit_runtime_gap expected ids faults =
      checked (validate_pending_runtime_gap expected)
        (update_document os g (gap_commit lib faults expected ids))
