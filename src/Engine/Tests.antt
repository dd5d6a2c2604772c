-- ===== src/Engine/Tests.antt =====
-- A query under a grant, the stamps of two boot sequences, and a bucket with one observation.
use open_chronicle_next.Base.{
  ℕ, ◌+◌, ◌%◌, ◌≤◌, ◌<◌, ◌≡◌, ◌≢◌, ◌⊎◌, refl, String, true, false, Option, some, none, [], ◌∷◌,
  arith, every, length, str_eq, eq_iff,
}
use open_chronicle_next.Base.Outcome.{ok, err, is_ok}
use open_chronicle_next.Domain.Time.{Instant, UtcRange, nanos, seconds, validate_range}
use open_chronicle_next.Domain.Grant.{DisclosureGrant, metadata, rolling_horizon, active}
use open_chronicle_next.Domain.Query.{QueryOperation, ActivityFilter}
use open_chronicle_next.Domain.Event.{
  EventEnvelope, EventKind, EventPayload, AttemptStatus, EvidenceState, PresenceState, OcrState,
  ObservationContent,
}
use open_chronicle_next.Domain.Event.Attempt.{
  validate_attempt, validate_content, validate_captured, validate_window_context,
  validate_content_hash, ocr_consistent, check_idle, matches_axis, presence_matches,
}
use open_chronicle_next.Domain.Event.Validate.{
  validate, validate_payload, validate_observation, kind_matches,
}
use open_chronicle_next.Domain.Chunk.{ChunkGapKind, evidence_total, presence_total, for_gap_kind}
use open_chronicle_next.Engine.Policy.Align.{align_inward, from_timestamp, allowed_range}
use open_chronicle_next.Engine.Policy.Scope.{
  CursorScope, PolicyDecision, authorize_query, authorize_query_content, clip, clip_all,
  scope_digest,
}
use open_chronicle_next.Engine.Policy.Ranges.{
  IsAligned, align_inward-inside, align_inward_complete, align_inward-early,
}
use open_chronicle_next.Engine.Policy.Authorized.{IsAuthorized, authorize_query-IsAuthorized}
use open_chronicle_next.Engine.Transitions.{application_transitions}
use open_chronicle_next.Engine.Transitions.Chain.{is_chain, application_transitions-is_chain}
use open_chronicle_next.Engine.Cadence.{
  CadenceStamp, CadenceGuard, new, observe, observe_event, advance, admit, noting,
  retired_boot_sequence,
}
use open_chronicle_next.Engine.Cadence.Order.{
  admitted, in_order, elsewhere, admitted-in_order, observe_event_lem,
}
use open_chronicle_next.Engine.Cadence.Lockout.{stale_stamp-lockout}
use open_chronicle_next.Engine.Coverage.Gaps.{
  CoverageAssignment, assign_coverage, assigned_seconds, coalesce_gaps, evidence_seconds_of,
}
use open_chronicle_next.Engine.Coverage.Totals.{valid, assign_coverage-partitions}
use open_chronicle_next.Engine.Coverage.Runs.{ordered_gaps, gap_time}
use open_chronicle_next.Engine.Coverage.Coalesced.{coalesce_gaps-assigned_seconds}

abbrev grant_7 : DisclosureGrant
grant_7 = record {
  schema_version = "1.0";
  grant_id = 7;
  client_id = 3;
  receipt_id = 9;
  time_scope = rolling_horizon 86400;
  content_classes = metadata ∷ [];
  created_at = seconds 100;
  expires_at = seconds 1_000_000;
  state = active;
  limits = record { max_page_items = 10; max_response_bytes = 1000; max_cumulative_bytes = 5000 };
  disclosed_bytes = 0;
  store_generation = 1;
}

-- The last second, and a digest that is the same for every scope.
abbrev last_second : ℕ
last_second = 1_000_000_000

abbrev plain_digest : CursorScope → Option String
plain_digest scope = some "digest"

abbrev morning : UtcRange
morning = record { start = seconds 100_000; end = seconds 110_000 }

abbrev everything : ActivityFilter
everything = record {
  range = morning;
  application_bundle_id = none;
  window_text = none;
  authorized_domain = none;
  evidence_states = [];
}

abbrev listing : QueryOperation
listing = QueryOperation.list_chunks everything (record { cursor = none; limit = 50 })

abbrev aligned_morning : UtcRange
aligned_morning = record { start = seconds 100_200; end = seconds 109_800 }

abbrev decision : PolicyDecision
decision = record {
  requested_ranges = morning ∷ [];
  effective_ranges = aligned_morning ∷ [];
  content_classes = metadata ∷ [];
  include_ocr = false;
  page_limit = some 10;
  cursor_scope_digest = "digest";
}

authorizes :
    authorize_query plain_digest last_second grant_7 listing (morning ∷ []) (seconds 172_800)
    ≡ ok decision
unfolding authorize_query authorize_query_content allowed_range clip_all clip scope_digest
    align_inward from_timestamp validate_range
authorizes = refl

authorize_query-IsAuthorized_example :
    IsAuthorized grant_7 (morning ∷ []) (seconds 172_800) decision
authorize_query-IsAuthorized_example =
    authorize_query-IsAuthorized plain_digest last_second grant_7 listing (morning ∷ [])
      (seconds 172_800) decision authorizes

aligns : align_inward last_second (seconds 100_000) (seconds 110_000) ≡ ok (some aligned_morning)
unfolding align_inward from_timestamp
aligns = refl

align_inward-inside_example :
    IsAligned aligned_morning
    × (aligned_morning.end ≤ seconds 110_000)
    × (seconds 100_000 < aligned_morning.start + nanos)
    × ((seconds 100_000 ≤ aligned_morning.start) ⊎ (0 < seconds 100_000 % nanos))
align_inward-inside_example =
    align_inward-inside last_second (seconds 100_000) (seconds 110_000) aligned_morning aligns

align_inward_complete_example :
    (r : UtcRange) × (align_inward last_second (seconds 100_000) (seconds 110_000) ≡ ok (some r))
    × (r.start ≤ seconds 102_000)
    × (seconds 102_000 + seconds 300 ≤ r.end)
align_inward_complete_example =
    align_inward_complete last_second (seconds 100_000) (seconds 110_000) (seconds 102_000)
      (omega arith) (omega arith) (omega arith) (omega arith)

-- Half a second after a bucket has begun.
abbrev late_start : Instant
late_start = seconds 102_000 + 500_000_000

align_inward-early_example :
    (r : UtcRange) × (align_inward last_second late_start (seconds 110_000) ≡ ok (some r))
    × (r.start < late_start)
align_inward-early_example =
    align_inward-early last_second late_start (seconds 110_000) (omega arith) (omega arith)
      (ground arith) (omega arith)

abbrev stamp : String → ℕ → CadenceStamp
stamp boot tick = record { boot_sequence = boot; monotonic_tick = tick }

admitted-in_order_example :
    in_order (admitted new (stamp "a" 4 ∷ stamp "a" 3 ∷ stamp "b" 1 ∷ stamp "a" 9 ∷ [])) ≡ true
admitted-in_order_example =
    admitted-in_order new (stamp "a" 4 ∷ stamp "a" 3 ∷ stamp "b" 1 ∷ stamp "a" 9 ∷ [])

takes_event : is_ok (observe_event new (stamp "a" 4) 8).0 ≡ true
unfolding observe_event observe advance admit noting
takes_event = refl

observe_event_lem_example :
    (observe_event (observe_event new (stamp "a" 4) 8).1 (stamp "a" 4) 8
      ≡ (ok tt, (observe_event new (stamp "a" 4) 8).1))
    × (is_ok (observe_event (observe_event new (stamp "a" 4) 8).1 (stamp "a" 4) 9).0 ≡ false)
observe_event_lem_example = observe_event_lem new (stamp "a" 4) 8 9 takes_event (omega arith)

distinct : (a b : String) → str_eq a b ≡ false → a ≢ b
distinct a b apart e = let same = (eq_iff a b).1 e in ground arith

-- Boot sequence b has followed a.
abbrev second_boot : CadenceGuard
second_boot = record {
  last = some (stamp "b" 1);
  last_event_id = none;
  retired_boot_sequences = "a" ∷ [];
}

stale_stamp-lockout_example :
    ((observe second_boot (stamp "a" 9)).0 ≡ err retired_boot_sequence)
    × (every (elsewhere "b") (admitted (observe second_boot (stamp "a" 9)).1 (stamp "b" 2 ∷ []))
        ≡ true)
stale_stamp-lockout_example =
    stale_stamp-lockout second_boot (stamp "b" 1) (stamp "a" 9) (stamp "b" 2 ∷ []) refl
      (distinct "a" "" refl) (distinct "a" "b" refl) refl

abbrev observation_in : String → ℕ → Instant → EventEnvelope
observation_in application id at = record {
  schema_version = "1.0";
  event_id = id;
  device_id = 1;
  scheduled_at = some at;
  observed_at = at;
  recorded_at = at + seconds 1;
  display_timezone = "UTC";
  source = record { adapter = "macos"; version = "1" };
  kind = EventKind.observation_attempt;
  payload = EventPayload.observation_attempt (record {
    cadence_seconds = 30;
    attempt_status = AttemptStatus.completed;
    evidence_state = EvidenceState.captured_new;
    presence_state = PresenceState.active;
    idle_seconds = none;
    ocr_state = OcrState.failed;
    content = ObservationContent.captured (record {
      context = record {
        application_bundle_id = application;
        process_name = "example";
        window_title = none;
        authorized_domain = none;
      };
      content_hash = "hash";
      ocr = none;
      image = none;
    });
  });
}

abbrev observation : EventEnvelope
observation = observation_in "com.example" 5 (seconds 630)

abbrev later_observation : EventEnvelope
later_observation = observation_in "com.other" 6 (seconds 660)

observation-valid : every valid (observation ∷ []) ≡ true
unfolding validate validate_payload validate_observation validate_attempt validate_content
    validate_captured validate_window_context validate_content_hash ocr_consistent check_idle
    matches_axis presence_matches kind_matches
observation-valid = refl

assign_coverage-partitions_example :
    (a : CoverageAssignment) × (assign_coverage (observation ∷ []) (seconds 600) ≡ ok a)
    × (a.assigned ≡ assigned_seconds (observation ∷ []) (seconds 600))
    × (length a.assigned ≡ 300)
    × (evidence_total a.evidence_seconds ≡ 300)
    × (presence_total a.presence_seconds ≡ a.evidence_seconds.captured)
assign_coverage-partitions_example =
    assign_coverage-partitions (observation ∷ []) (seconds 600) observation-valid

coalesce_gaps-assigned_seconds_example :
    (ordered_gaps
        (seconds 600)
        (seconds 600 + seconds 300)
        (coalesce_gaps (assigned_seconds (observation ∷ []) (seconds 600)))
      ≡ true)
    × (gap_time ChunkGapKind.missing_observation
          (coalesce_gaps (assigned_seconds (observation ∷ []) (seconds 600)))
        ≡ seconds (
            for_gap_kind
              (evidence_seconds_of (assigned_seconds (observation ∷ []) (seconds 600)))
              ChunkGapKind.missing_observation))
coalesce_gaps-assigned_seconds_example =
    coalesce_gaps-assigned_seconds (observation ∷ []) (seconds 600) ChunkGapKind.missing_observation

application_transitions-is_chain_example :
    is_chain (application_transitions (later_observation ∷ observation ∷ [])) ≡ true
application_transitions-is_chain_example =
    application_transitions-is_chain (later_observation ∷ observation ∷ [])
