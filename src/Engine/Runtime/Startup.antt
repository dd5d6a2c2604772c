-- ===== src/Engine/Runtime/Startup.antt =====
-- crates/chronicle-engine/src/runtime.rs: `prepare_startup` and `commit_startup`.
use open_chronicle_next.Base.{
  ℕ, String, Bool, true, false, ◌&&◌, not, Option, none, some, List, [], ◌∷◌, ◌++◌, map, ltb, ◌==◌,
  str_eq, if◌then◌else◌,
}
use open_chronicle_next.Base.Outcome.{Result, ok, err, map_err, ◌>>=◌, ◌>>◌, refuse}
use open_chronicle_next.Domain.Time.{Instant}
use open_chronicle_next.Domain.Event.{
  EventEnvelope, EventKind, EventPayload, GapReason, EvidenceSource,
}
use open_chronicle_next.Domain.Event.Validate.{validate}
use open_chronicle_next.Store.World.{StoreGeneration}
use open_chronicle_next.Engine.Errors.{EngineError, configuration, aggregation}
use open_chronicle_next.Engine.Config.{
  absent, present, RuntimeSession, ConfigDocument, ConfigPlatform, ConfigAction,
  PendingStartupReconciliation, LastStartupReconciliation, get,
}
use open_chronicle_next.Engine.Runtime.{
  Update, GapLibrary, StartupReconcileRequest, PreparedStartupReconciliation, new_session,
  current_session, update_document, checked,
}
use open_chronicle_next.Engine.Runtime.Validate.{
  validate_startup_request, validate_pending_gap_events, gap_end,
}

-- `CONTRACT_VERSION` of crates/chronicle-domain/src/lib.rs.
abbrev pub contract_version : String
contract_version = "1.0"

-- `app-lifecycle`.
abbrev pub lifecycle_source : EvidenceSource
lifecycle_source = record { adapter = "app-lifecycle"; version = "1.0" }

abbrev pub event_ids : List EventEnvelope → List ℕ
event_ids es = map (λ e. e.event_id) es

module _ (lib : GapLibrary) where
  -- The event that `restart_gap_event` checks.
  abbrev pub restart_gap :
      (start end : Instant) → GapReason → StartupReconcileRequest → EventEnvelope
  restart_gap start end reason r = record {
    schema_version = contract_version;
    event_id = lib.startup_gap_id start end reason r.device_id r.display_timezone;
    device_id = r.device_id;
    scheduled_at = none;
    observed_at = end;
    recorded_at = end;
    display_timezone = r.display_timezone;
    source = lifecycle_source;
    kind = EventKind.recording_gap;
    payload = EventPayload.recording_gap (record { start = start; end = end; reason = reason });
  }

  unfoldable pub restart_gap_event :
      (start end : Instant) → GapReason → StartupReconcileRequest → Result EngineError EventEnvelope
  unfolding validate
  restart_gap_event start end reason r =
      map_err aggregation (validate (restart_gap start end reason r))
      >> ok (restart_gap start end reason r)

  -- The gap between a boundary and the instant of the request, if they differ: a clock that was put
  -- back gives a correction.
  unfoldable pub gap_since :
      Instant → StartupReconcileRequest → Result EngineError (List EventEnvelope)
  unfolding restart_gap_event
  gap_since boundary r =
      if ltb boundary r.now
      then restart_gap_event boundary r.now GapReason.quit r >>= (λ e. ok (e ∷ []))
      else if ltb r.now boundary
      then restart_gap_event r.now boundary GapReason.clock_correction r >>= (λ e. ok (e ∷ []))
      else ok []

abbrev pub last_gap_end : List EventEnvelope → Option Instant
last_gap_end [] = none
last_gap_end (e ∷ []) = gap_end e
last_gap_end (e ∷ f ∷ es) = last_gap_end (f ∷ es)

abbrev pub prepared : List EventEnvelope → PreparedStartupReconciliation
prepared es = record { gap_events = es; gap_event_ids = event_ids es }

-- A start while an intent of another session is unresolved: the gaps since its last one are added.
unfoldable pub extend_intent :
    GapLibrary
    → StartupReconcileRequest
    → PendingStartupReconciliation
    → Option Instant
    → Result EngineError PendingStartupReconciliation
unfolding gap_since
extend_intent lib r p none =
    err (configuration "pending startup reconciliation requires a gap event")
extend_intent lib r p (some last_end) = do
  more ← gap_since lib last_end r
  ok (record { new_session = new_session r.session_id r.now; gap_events = p.gap_events ++ more })

abbrev pub resumed :
    PendingStartupReconciliation → ConfigDocument → PreparedStartupReconciliation × ConfigDocument
resumed q d = (prepared q.gap_events, record d { pending_startup_reconciliation = present q })

-- A start while an intent is unresolved.
unfoldable pub resume_intent :
    GapLibrary
    → StartupReconcileRequest
    → PendingStartupReconciliation
    → Update PreparedStartupReconciliation
unfolding extend_intent validate_pending_gap_events
resume_intent lib r p d =
    validate_pending_gap_events p.gap_events
    >> (if str_eq p.new_session.session_id r.session_id
        then ok (prepared p.gap_events, d)
        else (extend_intent lib r p (last_gap_end p.gap_events) >>= λ q. ok (resumed q d)))

-- The identifiers that the last committed start of a session has left.
abbrev pub committed_ids : String → Option LastStartupReconciliation → List ℕ
committed_ids id none = []
committed_ids id (some last) = if str_eq last.new_session_id id then last.gap_event_ids else []

-- The end of a prior session.
abbrev pub prior_boundary : RuntimeSession → Instant
prior_boundary s = elim s.closed_at [ none ↦ s.last_heartbeat_at | some at ↦ at ]

-- The new session is installed at once where there is no gap, and else waits for its gap events.
abbrev pub install :
    StartupReconcileRequest
    → ConfigDocument
    → List EventEnvelope
    → PreparedStartupReconciliation × ConfigDocument
install r d [] = (
  prepared [],
  record d {
    lifecycle_checkpoint = present (new_session r.session_id r.now);
    pending_startup_reconciliation = absent;
  },
)
install r d (e ∷ es) = (
  prepared (e ∷ es),
  record d {
    pending_startup_reconciliation =
        present (record { new_session = new_session r.session_id r.now; gap_events = e ∷ es });
  },
)

-- A start without an unresolved intent.
unfoldable pub begin_session :
    GapLibrary
    → StartupReconcileRequest
    → Option RuntimeSession
    → Update PreparedStartupReconciliation
unfolding gap_since
begin_session lib r none d = ok (install r d [])
begin_session lib r (some prior) d =
    if str_eq prior.session_id r.session_id
    then (get d.last_startup_reconciliation >>= λ last.
        ok (record { gap_events = []; gap_event_ids = committed_ids r.session_id last }, d))
    else (gap_since lib (prior_boundary prior) r >>= λ es. ok (install r d es))

unfoldable pub startup_step :
    GapLibrary
    → StartupReconcileRequest
    → Option PendingStartupReconciliation
    → Update PreparedStartupReconciliation
unfolding resume_intent begin_session
startup_step lib r none d = current_session d >>= λ s. begin_session lib r s d
startup_step lib r (some p) d = resume_intent lib r p d

unfoldable pub startup : GapLibrary → StartupReconcileRequest → Update PreparedStartupReconciliation
unfolding startup_step
startup lib r d = get d.pending_startup_reconciliation >>= λ p. startup_step lib r p d

-- `prepare_startup`.
unfoldable pub prepare_startup :
    ConfigPlatform
    → StoreGeneration
    → GapLibrary
    → StartupReconcileRequest
    → ConfigAction PreparedStartupReconciliation
unfolding startup validate_startup_request
prepare_startup os g lib r =
    checked (validate_startup_request r) (update_document os g (startup lib r))

-- `Vec::eq` on identifiers.
unfoldable pub same_ids : List ℕ → List ℕ → Bool
same_ids [] [] = true
same_ids (a ∷ rest) (b ∷ others) = a == b && same_ids rest others
same_ids _ _ = false

-- The intent that a commit is to match.
abbrev pub matches_intent : String → List ℕ → PendingStartupReconciliation → Bool
matches_intent id ids p =
    str_eq p.new_session.session_id id && same_ids (event_ids p.gap_events) ids

unfoldable pub finish_intent :
    String → List ℕ → Option PendingStartupReconciliation → Update (Unit {0})
unfolding same_ids
finish_intent id ids none d =
    err (configuration "startup reconciliation completed without a pending intent")
finish_intent id ids (some p) d =
    refuse (not (matches_intent id ids p))
      (configuration "startup reconciliation does not match its durable intent")
    >> (get d.last_startup_reconciliation >>= λ last. ok (
      tt,
      record d {
        lifecycle_checkpoint = present p.new_session;
        last_startup_reconciliation = present (record { new_session_id = id; gap_event_ids = ids });
        pending_startup_reconciliation = absent;
      },
    ))

unfoldable pub startup_commit : String → List ℕ → Update (Unit {0})
unfolding finish_intent
startup_commit id ids d = get d.pending_startup_reconciliation >>= λ p. finish_intent id ids p d

-- `commit_startup`.
unfoldable pub commit_startup :
    ConfigPlatform → StoreGeneration → String → List ℕ → ConfigAction (Unit {0})
unfolding startup_commit
commit_startup os g id ids = update_document os g (startup_commit id ids)
