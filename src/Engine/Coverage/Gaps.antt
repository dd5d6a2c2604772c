-- ===== src/Engine/Coverage/Gaps.antt =====
-- crates/chronicle-engine/src/coverage.rs: the counts of seconds, the gaps, and `assign_coverage`.
use open_chronicle_next.Base.{
  ℕ, ◌+◌, min, String, Bool, true, false, ◌&&◌, ◌||◌, not, Option, none, some, List, [], ◌∷◌,
  length, retain, ◌==◌, if◌then◌else◌,
}
use open_chronicle_next.Base.Outcome.{Result, ok, err}
use open_chronicle_next.Domain.Time.{Instant, seconds}
use open_chronicle_next.Domain.Event.{EventEnvelope, PresenceState, active, idle, unknown}
use open_chronicle_next.Domain.Chunk.{
  EvidenceSeconds, PresenceSeconds, ChunkGap, ChunkGapKind, evidence_total, presence_total,
}
use open_chronicle_next.Engine.Coverage.Seconds.{
  EvidenceClass, AssignedSecond, spans, explicit_gaps, assign_seconds,
}

-- The discriminants, for the derived equalities.
abbrev pub class_code : EvidenceClass → ℕ
class_code EvidenceClass.captured = 0
class_code EvidenceClass.protected = 1
class_code EvidenceClass.paused = 2
class_code EvidenceClass.unavailable = 3
class_code EvidenceClass.error = 4
class_code EvidenceClass.gap = 5

abbrev pub presence_code : PresenceState → ℕ
presence_code PresenceState.active = 0
presence_code PresenceState.idle = 1
presence_code PresenceState.locked = 2
presence_code PresenceState.asleep = 3
presence_code PresenceState.unknown = 4

abbrev pub kind_code : ChunkGapKind → ℕ
kind_code ChunkGapKind.protected = 0
kind_code ChunkGapKind.paused = 1
kind_code ChunkGapKind.unavailable = 2
kind_code ChunkGapKind.error = 3
kind_code ChunkGapKind.missing_observation = 4

abbrev pub u32_max : ℕ
u32_max = 4_294_967_295

abbrev pub of_class : EvidenceClass → AssignedSecond → Bool
of_class c s = class_code s.evidence == class_code c

abbrev pub of_presence : PresenceState → AssignedSecond → Bool
of_presence p s = elim s.presence [ none ↦ false | some q ↦ presence_code q == presence_code p ]

unfoldable pub count : List AssignedSecond → EvidenceClass → ℕ
count ss c = min (length (retain (of_class c) ss)) u32_max

unfoldable pub count_presence : List AssignedSecond → PresenceState → ℕ
count_presence ss p = min (length (retain (of_presence p) ss)) u32_max

unfoldable pub gap_kind : EvidenceClass → Option ChunkGapKind
gap_kind EvidenceClass.captured = none
gap_kind EvidenceClass.protected = some ChunkGapKind.protected
gap_kind EvidenceClass.paused = some ChunkGapKind.paused
gap_kind EvidenceClass.unavailable = some ChunkGapKind.unavailable
gap_kind EvidenceClass.error = some ChunkGapKind.error
gap_kind EvidenceClass.gap = some ChunkGapKind.missing_observation

-- A run of seconds that the inner loop of `coalesce_gaps` has come to: its first and last second.
pub record Run : Type 0 where
  pub kind : ChunkGapKind
  pub event_id : Option ℕ
  pub start : Instant
  pub last : Instant

abbrev pub same_event : Option ℕ → Option ℕ → Bool
same_event none none = true
same_event (some a) (some b) = a == b
same_event none (some b) = false
same_event (some a) none = false

-- The condition of the inner loop.
unfoldable pub continues : Run → AssignedSecond → Bool
unfolding gap_kind
continues r s = elim (gap_kind s.evidence) [
  | none ↦ false
  | some k ↦ (kind_code k == kind_code r.kind) && same_event s.event_id r.event_id
]

-- The gap that is pushed for a run.
abbrev pub run_gap : Run → ChunkGap
run_gap r = record {
  start = r.start;
  end = r.last + seconds 1;
  kind = r.kind;
  supporting_event_ids = elim r.event_id [ none ↦ [] | some id ↦ id ∷ [] ];
}

-- The start of the outer loop's body on a second.
unfoldable pub open_run : AssignedSecond → Option Run
unfolding gap_kind
open_run s = elim (gap_kind s.evidence) [
  | none ↦ none
  | some k ↦ some (record { kind = k; event_id = s.event_id; start = s.start; last = s.start })
]

-- The two loops of `coalesce_gaps` over the seconds that are left, inside a run or outside one.
unfoldable pub coalesce_from : Option Run → List AssignedSecond → List ChunkGap
unfolding open_run continues
coalesce_from none [] = []
coalesce_from (some r) [] = run_gap r ∷ []
coalesce_from none (s ∷ ss) = coalesce_from (open_run s) ss
coalesce_from (some r) (s ∷ ss) =
    let longer = coalesce_from (some (record r { last = s.start })) ss in
    let fresh = coalesce_from (open_run s) ss in if continues r s then longer else run_gap r ∷ fresh

unfoldable pub coalesce_gaps : List AssignedSecond → List ChunkGap
unfolding coalesce_from
coalesce_gaps ss = coalesce_from none ss

pub record CoverageAssignment : Type 0 where
  pub evidence_seconds : EvidenceSeconds
  pub presence_seconds : PresenceSeconds
  pub gaps : List ChunkGap
  pub assigned : List AssignedSecond

unfoldable pub evidence_seconds_of : List AssignedSecond → EvidenceSeconds
evidence_seconds_of ss = record {
  captured = count ss EvidenceClass.captured;
  protected = count ss EvidenceClass.protected;
  paused = count ss EvidenceClass.paused;
  unavailable = count ss EvidenceClass.unavailable;
  error = count ss EvidenceClass.error;
  gap = count ss EvidenceClass.gap;
}

unfoldable pub presence_seconds_of : List AssignedSecond → PresenceSeconds
presence_seconds_of ss = record {
  active = count_presence ss active;
  idle = count_presence ss idle;
  unknown = count_presence ss unknown;
}

-- The end of `assign_coverage`.
unfoldable pub summarize : List AssignedSecond → Result String CoverageAssignment
unfolding coalesce_gaps evidence_seconds_of presence_seconds_of
summarize ss =
    let evidence = evidence_seconds_of ss in
    let presence = presence_seconds_of ss in
    if not (evidence_total evidence == 300) || not (presence_total presence == evidence.captured)
    then err "coverage assignment did not partition the bucket"
    else ok (record {
      evidence_seconds = evidence;
      presence_seconds = presence;
      gaps = coalesce_gaps ss;
      assigned = ss;
    })

-- The seconds of the bucket.
unfoldable pub assigned_seconds : List EventEnvelope → Instant → List AssignedSecond
unfolding spans explicit_gaps assign_seconds
assigned_seconds events bucket =
    assign_seconds (explicit_gaps bucket events) (spans bucket events) 300 bucket

unfoldable pub assign_coverage : List EventEnvelope → Instant → Result String CoverageAssignment
unfolding assigned_seconds summarize
assign_coverage events bucket = summarize (assigned_seconds events bucket)
