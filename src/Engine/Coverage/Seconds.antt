-- ===== src/Engine/Coverage/Seconds.antt =====
-- crates/chronicle-engine/src/coverage.rs: the sample spans, the explicit gaps and the class of
-- each second.
use open_chronicle_next.Base.{
  ℕ, zero, suc, ◌+◌, ◌-◌, ◌*◌, ◌/◌, max, min, Bool, ◌&&◌, ◌||◌, Option, none, some, List, [], ◌∷◌,
  retain, ltb, leb, ◌==◌, if◌then◌else◌,
}
use open_chronicle_next.Base.Sort.{sort_by, min_by}
use open_chronicle_next.Domain.Time.{Instant, seconds}
use open_chronicle_next.Domain.Event.{
  EventEnvelope, ObservationAttempt, RecordingGap, EvidenceState, PresenceState, GapReason,
  observation_attempt, recording_gap,
}

pub data EvidenceClass : Type 0 where
  captured protected paused unavailable error gap : EvidenceClass

pub record AssignedSecond : Type 0 where
  pub start : Instant
  pub evidence : EvidenceClass
  pub presence : Option PresenceState
  pub event_id : Option ℕ
  pub event_index : Option ℕ

pub record SampleSpan : Type 0 where
  pub event_index : ℕ
  pub center_millis : ℕ
  pub start_millis : ℕ
  pub end_millis : ℕ
  pub evidence : EvidenceClass
  pub presence : Option PresenceState
  pub event_id : ℕ

pub record ExplicitGap : Type 0 where
  pub start_millis : ℕ
  pub end_millis : ℕ
  pub evidence : EvidenceClass
  pub event_id : ℕ

-- `timestamp_millis`.
abbrev pub millis : Instant → ℕ
millis t = t / 1_000_000

unfoldable pub evidence_class : EvidenceState → EvidenceClass
evidence_class EvidenceState.captured_new = captured
evidence_class EvidenceState.captured_unchanged = captured
evidence_class EvidenceState.protected = protected
evidence_class EvidenceState.paused = paused
evidence_class EvidenceState.unavailable = unavailable
evidence_class EvidenceState.capture_failed = error

-- `matches!(state, CapturedNew | CapturedUnchanged).then_some(presence)`.
unfoldable pub captured_presence : ObservationAttempt → Option PresenceState
captured_presence a = elim a.evidence_state [
  | EvidenceState.captured_new ↦ some a.presence_state
  | EvidenceState.captured_unchanged ↦ some a.presence_state
  | _ ↦ none
]

unfoldable pub gap_class : GapReason → EvidenceClass
gap_class GapReason.permission_loss = unavailable
gap_class GapReason.storage_outage = error
gap_class GapReason.sleep = gap
gap_class GapReason.quit = gap
gap_class GapReason.clock_correction = gap

-- `event_order(left, right).is_le()`.
abbrev pub event_order : EventEnvelope → EventEnvelope → Bool
event_order l r =
    ltb l.observed_at r.observed_at
    || ((l.observed_at == r.observed_at) && leb l.event_id r.event_id)

-- An observation attempt that is scheduled in the bucket, with its index.
pub record Sample : Type 0 where
  pub index : ℕ
  pub event : EventEnvelope
  pub attempt : ObservationAttempt
  pub scheduled : Instant

-- The filter of `sample_indexes` on one event.
unfoldable pub sample : Instant → ℕ → EventEnvelope → Option Sample
sample bucket i e = elim e.payload [
  | observation_attempt a ↦ elim e.scheduled_at [
    | none ↦ none
    | some at ↦
        if leb bucket at && ltb at (bucket + seconds 300)
        then some (record { index = i; event = e; attempt = a; scheduled = at })
        else none
  ]
  | _ ↦ none
]

unfoldable pub samples : Instant → ℕ → List EventEnvelope → List Sample
samples bucket i [] = []
samples bucket i (e ∷ es) = elim (sample bucket i e) [
  | none ↦ samples bucket (i + 1) es
  | some s ↦ s ∷ samples bucket (i + 1) es
]

abbrev pub half : ℕ → ℕ
half cadence = cadence / 2

abbrev pub cap : ℕ → ℕ
cap cadence = cadence * 3 / 4

-- The start of a span, before its bounds. Samples are ordered by the time they were observed, so
-- that the previous one may have been scheduled later; the distance is then negative.
abbrev pub span_start : (bucket cadence center : ℕ) → Option Sample → ℕ
span_start bucket cadence center none = millis bucket
span_start bucket cadence center (some previous) =
    let before = millis previous.scheduled in
    if ltb center before
    then before - (before - center) / 2
    else (if leb (center - before) (cadence * 3 / 2)
        then before + (center - before) / 2
        else center - half cadence)

abbrev pub span_end : (bucket cadence center : ℕ) → Option Sample → ℕ
span_end bucket cadence center none = millis (bucket + seconds 300)
span_end bucket cadence center (some next) =
    let behind = millis next.scheduled in
    if ltb behind center
    then center - (center - behind) / 2
    else (if leb (behind - center) (cadence * 3 / 2)
        then center + (behind - center) / 2
        else center + half cadence)

unfoldable pub span : (bucket : Instant) → (previous next : Option Sample) → Sample → SampleSpan
span bucket previous next s =
    let cadence = s.attempt.cadence_seconds * 1_000 in
    let center = millis s.scheduled in
    record {
      event_index = s.index;
      center_millis = center;
      start_millis =
          max (max (span_start bucket cadence center previous) (center - cap cadence))
            (millis bucket);
      end_millis =
          min (min (span_end bucket cadence center next) (center + cap cadence))
            (millis (bucket + seconds 300));
      evidence = evidence_class s.attempt.evidence_state;
      presence = captured_presence s.attempt;
      event_id = s.event.event_id;
    }

abbrev head : List Sample → Option Sample
head [] = none
head (s ∷ ss) = some s

-- The loop over the sorted samples.
unfoldable pub spans_from : (bucket : Instant) → Option Sample → List Sample → List SampleSpan
spans_from bucket previous [] = []
spans_from bucket previous (s ∷ ss) =
    span bucket previous (head ss) s ∷ spans_from bucket (some s) ss

unfoldable pub spans : (bucket : Instant) → List EventEnvelope → List SampleSpan
unfolding spans_from
spans bucket es =
    spans_from bucket none (sort_by (λ l r. event_order l.event r.event) (samples bucket 0 es))

abbrev explicit_gap : (bucket : Instant) → ℕ → RecordingGap → ExplicitGap
explicit_gap bucket id g = record {
  start_millis = millis (max g.start bucket);
  end_millis = millis (min g.end (bucket + seconds 300));
  evidence = gap_class g.reason;
  event_id = id;
}

unfoldable pub explicit_gaps : (bucket : Instant) → List EventEnvelope → List ExplicitGap
explicit_gaps bucket [] = []
explicit_gaps bucket (e ∷ es) =
    let rest = explicit_gaps bucket es in
    elim e.payload [
      | recording_gap g ↦
          if ltb g.start (bucket + seconds 300) && ltb bucket g.end
          then explicit_gap bucket e.event_id g ∷ rest
          else rest
      | _ ↦ rest
    ]

abbrev abs_diff : ℕ → ℕ → ℕ
abs_diff a b = (a - b) + (b - a)

abbrev nearer : ℕ → SampleSpan → SampleSpan → Bool
nearer m l r =
    ltb (abs_diff m l.center_millis) (abs_diff m r.center_millis)
    || ((abs_diff m l.center_millis == abs_diff m r.center_millis) && ltb l.event_id r.event_id)

-- The explicit gap and the span that the midpoint of a second falls to.
unfoldable pub gap_at : List ExplicitGap → ℕ → Option ExplicitGap
gap_at gs m =
    min_by (λ l r. ltb l.event_id r.event_id)
      (retain (λ g. leb g.start_millis m && ltb m g.end_millis) gs)

unfoldable pub span_at : List SampleSpan → ℕ → Option SampleSpan
span_at ss m = min_by (nearer m) (retain (λ s. leb s.start_millis m && ltb m s.end_millis) ss)

-- The body of the loop over the seconds.
unfoldable pub assign : List ExplicitGap → List SampleSpan → Instant → AssignedSecond
assign gs ss at = elim (gap_at gs (millis at + 500)) [
  | some g ↦ record {
    start = at;
    evidence = g.evidence;
    presence = none;
    event_id = some g.event_id;
    event_index = none;
  }
  | none ↦ elim (span_at ss (millis at + 500)) [
    | some s ↦ record {
      start = at;
      evidence = s.evidence;
      presence = s.presence;
      event_id = some s.event_id;
      event_index = some s.event_index;
    }
    | none ↦ record {
      start = at;
      evidence = gap;
      presence = none;
      event_id = none;
      event_index = none;
    }
  ]
]

-- The loop over `n` seconds from an instant.
unfoldable pub assign_seconds :
    List ExplicitGap → List SampleSpan → ℕ → Instant → List AssignedSecond
assign_seconds gs ss zero at = []
assign_seconds gs ss (suc n) at = assign gs ss at ∷ assign_seconds gs ss n (at + seconds 1)
