-- ===== src/Engine/Coverage/Partition.antt =====
-- The seconds of a bucket are counted once each.
use open_chronicle_next.Base.{
  ℕ, zero, suc, ◌+◌, ◌≡◌, refl, inl, inr, Bool, true, false, ◌&&◌, not, Option, none, some, List,
  [], ◌∷◌, arith, length, every, ◌==◌, Option-cases,
}
use open_chronicle_next.Base.Sort.{every-retain, every-min_by, every-sort_by}
use open_chronicle_next.Domain.Time.{Instant, seconds}
use open_chronicle_next.Domain.Event.{
  EventEnvelope, ObservationAttempt, PresenceState, observation_attempt,
}
use open_chronicle_next.Engine.Coverage.Seconds.{
  EvidenceClass, SampleSpan, ExplicitGap, Sample, evidence_class, captured_presence, gap_class,
  sample, samples, span, spans_from, spans, explicit_gaps, gap_at, span_at, assign, assign_seconds,
  millis, event_order,
}
use open_chronicle_next.Engine.Coverage.Gaps.{class_code}

-- A presence that `PresenceSeconds` has a field for.
abbrev pub has_field : PresenceState → Bool
has_field PresenceState.active = true
has_field PresenceState.idle = true
has_field PresenceState.unknown = true
has_field PresenceState.locked = false
has_field PresenceState.asleep = false

-- A presence stands at the captured class and at no other.
abbrev pub matched : EvidenceClass → Option PresenceState → Bool
matched c none = not (class_code c == 0)
matched c (some p) = (class_code c == 0) && has_field p

unfoldable pub attempt_counted : ObservationAttempt → Bool
unfolding captured_presence
attempt_counted a = elim (captured_presence a) [ none ↦ true | some p ↦ has_field p ]

-- A captured observation was active, idle or of unknown presence.
unfoldable pub presence_counted : EventEnvelope → Bool
unfolding attempt_counted
presence_counted e = elim e.payload [ observation_attempt a ↦ attempt_counted a | _ ↦ true ]

span-matched :
    (bucket : Instant) (previous next : Option Sample) (s : Sample)
    → attempt_counted s.attempt ≡ true
    → matched (span bucket previous next s).evidence (span bucket previous next s).presence ≡ true
unfolding span attempt_counted captured_presence evidence_class
span-matched bucket previous next s h = ground arith

spans_from-matched :
    (bucket : Instant) (previous : Option Sample) (ss : List Sample)
    → every (λ s. attempt_counted s.attempt) ss ≡ true
    → every (λ x. matched x.evidence x.presence) (spans_from bucket previous ss) ≡ true
unfolding spans_from
spans_from-matched bucket previous [] h = refl
spans_from-matched bucket previous (s ∷ []) h = ground (arith, span-matched bucket previous none s)
spans_from-matched bucket previous (s ∷ t ∷ ss) h =
    ground
      (arith, span-matched bucket previous (some t) s, spans_from-matched bucket (some s) (t ∷ ss))

sample-counted :
    (bucket : Instant) (i : ℕ) (e : EventEnvelope) (s : Sample)
    → presence_counted e ≡ true
    → sample bucket i e ≡ some s
    → attempt_counted s.attempt ≡ true
unfolding sample presence_counted
sample-counted bucket i e s h k = ground arith

samples-counted :
    (bucket : Instant) (i : ℕ) (es : List EventEnvelope)
    → every presence_counted es ≡ true
    → every (λ s. attempt_counted s.attempt) (samples bucket i es) ≡ true
unfolding samples
samples-counted bucket i [] h = refl
samples-counted bucket i (e ∷ es) h = elim (Option-cases (sample bucket i e)) [
  | inl missing ↦ ground (arith, samples-counted bucket (i + 1) es)
  | inr (s, found) ↦ ground (arith, sample-counted bucket i e s, samples-counted bucket (i + 1) es)
]

pub spans-matched :
    (bucket : Instant) (es : List EventEnvelope)
    → every presence_counted es ≡ true
    → every (λ x. matched x.evidence x.presence) (spans bucket es) ≡ true
unfolding spans
spans-matched bucket es h = spans_from-matched bucket none _ (
    every-sort_by (λ l r. event_order l.event r.event) (λ s. attempt_counted s.attempt)
      (samples bucket 0 es) (samples-counted bucket 0 es h))

abbrev pub uncaptured : ExplicitGap → Bool
uncaptured g = not (class_code g.evidence == 0)

pub explicit_gaps-uncaptured :
    (bucket : Instant) (es : List EventEnvelope) → every uncaptured (explicit_gaps bucket es) ≡ true
unfolding explicit_gaps gap_class
explicit_gaps-uncaptured bucket [] = refl
explicit_gaps-uncaptured bucket (e ∷ es) = ground (arith, explicit_gaps-uncaptured bucket es)

assign-matched :
    (gs : List ExplicitGap) (ss : List SampleSpan) (at : Instant)
    → every uncaptured gs ≡ true
    → every (λ x. matched x.evidence x.presence) ss ≡ true
    → matched (assign gs ss at).evidence (assign gs ss at).presence ≡ true
unfolding assign gap_at span_at
assign-matched gs ss at h k = elim (Option-cases (gap_at gs (millis at + 500))) [
  | inr (g, found) ↦
      let own = every-min_by _ uncaptured _ g (every-retain _ uncaptured gs h) found in ground arith
  | inl missing ↦ elim (Option-cases (span_at ss (millis at + 500))) [
    | inl none_left ↦ ground arith
    | inr (s, found) ↦
        let own =
          every-min_by _ (λ x. matched x.evidence x.presence) _ s
            (every-retain _ (λ x. matched x.evidence x.presence) ss k) found in
        ground arith
  ]
]

pub assign_seconds-matched :
    (gs : List ExplicitGap) (ss : List SampleSpan) (n : ℕ) (at : Instant)
    → every uncaptured gs ≡ true
    → every (λ x. matched x.evidence x.presence) ss ≡ true
    → every (λ x. matched x.evidence x.presence) (assign_seconds gs ss n at) ≡ true
unfolding assign_seconds
assign_seconds-matched gs ss zero at h k = refl
assign_seconds-matched gs ss (suc n) at h k =
    ground (arith, assign-matched gs ss at, assign_seconds-matched gs ss n (at + seconds 1))

pub length-assign_seconds :
    (gs : List ExplicitGap) (ss : List SampleSpan) (n : ℕ) (at : Instant)
    → length (assign_seconds gs ss n at) ≡ n
unfolding assign_seconds
length-assign_seconds gs ss zero at = refl
length-assign_seconds gs ss (suc n) at =
    ground (arith, length-assign_seconds gs ss n (at + seconds 1))
