-- ===== src/Engine/Coverage/Totals.antt =====
-- The counts of the seconds of a bucket add up.
use open_chronicle_next.Base.{
  ℕ, ◌+◌, ◌≡◌, refl, true, List, [], ◌∷◌, arith, length, retain, every, ltb, Bool, String, some,
  inl, inr, Option-cases,
}
use open_chronicle_next.Base.Outcome.{ok, refuse, require, ◌>>◌, is_ok, >>-eq-ok, Result-cases}
use open_chronicle_next.Domain.Time.{Instant}
use open_chronicle_next.Domain.Event.{
  EventEnvelope, AttemptStatus, EvidenceState, ObservationContent, PresenceState,
  ObservationAttempt, active, idle, unknown,
}
use open_chronicle_next.Domain.Event.Attempt.{
  validate_attempt, matches_axis, presence_matches, validate_content,
}
use open_chronicle_next.Domain.Event.Validate.{
  validate, validate_payload, validate_observation, expires_early,
}
use open_chronicle_next.Domain.Chunk.{evidence_total, presence_total}
use open_chronicle_next.Engine.Coverage.Seconds.{
  EvidenceClass, AssignedSecond, spans, explicit_gaps, evidence_class, captured_presence,
}
use open_chronicle_next.Engine.Coverage.Gaps.{
  CoverageAssignment, class_code, of_class, of_presence, count, count_presence, evidence_seconds_of,
  presence_seconds_of, summarize, assigned_seconds, assign_coverage, coalesce_gaps,
}
use open_chronicle_next.Engine.Coverage.Partition.{
  matched, presence_counted, attempt_counted, has_field, assign_seconds-matched,
  length-assign_seconds, spans-matched, explicit_gaps-uncaptured,
}

abbrev number : EvidenceClass → List AssignedSecond → ℕ
number c ss = length (retain (of_class c) ss)

classes-partition :
    (ss : List AssignedSecond)
    → number EvidenceClass.captured ss
        + number EvidenceClass.protected ss
        + number EvidenceClass.paused ss
        + number EvidenceClass.unavailable ss
        + number EvidenceClass.error ss
        + number EvidenceClass.gap ss
      ≡ length ss
classes-partition [] = refl
classes-partition (s ∷ ss) = ground (arith, classes-partition ss)

presences-partition :
    (ss : List AssignedSecond)
    → every (λ x. matched x.evidence x.presence) ss ≡ true
    → length (retain (of_presence active) ss)
        + length (retain (of_presence idle) ss)
        + length (retain (of_presence unknown) ss)
      ≡ number EvidenceClass.captured ss
presences-partition [] h = refl
presences-partition (s ∷ ss) h = ground (arith, presences-partition ss)

assigned-length :
    (events : List EventEnvelope) (bucket : Instant) → length (assigned_seconds events bucket) ≡ 300
unfolding assigned_seconds
assigned-length events bucket =
    length-assign_seconds (explicit_gaps bucket events) (spans bucket events) 300 bucket

assigned-matched :
    (events : List EventEnvelope) (bucket : Instant)
    → every presence_counted events ≡ true
    → every (λ x. matched x.evidence x.presence) (assigned_seconds events bucket) ≡ true
unfolding assigned_seconds
assigned-matched events bucket h =
    assign_seconds-matched (explicit_gaps bucket events) (spans bucket events) 300 bucket
      (explicit_gaps-uncaptured bucket events) (spans-matched bucket events h)

evidence-total :
    (ss : List AssignedSecond) → length ss ≡ 300 → evidence_total (evidence_seconds_of ss) ≡ 300
unfolding evidence_seconds_of count
evidence-total ss n = let parts = classes-partition ss in omega (arith, n, parts)

presence-total :
    (ss : List AssignedSecond)
    → length ss ≡ 300
    → every (λ x. matched x.evidence x.presence) ss ≡ true
    → presence_total (presence_seconds_of ss) ≡ (evidence_seconds_of ss).captured
unfolding evidence_seconds_of presence_seconds_of count count_presence
presence-total ss n h =
    let parts = presences-partition ss h in
    let classes = classes-partition ss in omega (arith, n, parts, classes)

abbrev summary : List AssignedSecond → CoverageAssignment
summary ss = record {
  evidence_seconds = evidence_seconds_of ss;
  presence_seconds = presence_seconds_of ss;
  gaps = coalesce_gaps ss;
  assigned = ss;
}

summarize-summary :
    (ss : List AssignedSecond)
    → evidence_total (evidence_seconds_of ss) ≡ 300
    → presence_total (presence_seconds_of ss) ≡ (evidence_seconds_of ss).captured
    → summarize ss ≡ ok (summary ss)
unfolding summarize
summarize-summary ss evidence presence = ground arith

-- An attempt that `validate` accepts has a presence with a field where it is captured.
matched_presence :
    (status : AttemptStatus) (state : EvidenceState) (content : ObservationContent)
    (presence : PresenceState)
    → matches_axis status state content ≡ true
    → presence_matches content presence ≡ true
    → (class_code (evidence_class state) ≡ 0)
    → has_field presence ≡ true
unfolding matches_axis presence_matches evidence_class
matched_presence status state content presence h k c = ground arith

captured_presence_class :
    (a : ObservationAttempt) (p : PresenceState)
    → captured_presence a ≡ some p
    → (class_code (evidence_class a.evidence_state) ≡ 0) × (p ≡ a.presence_state)
unfolding captured_presence evidence_class
captured_presence_class a p h = ground arith

required : (b : Bool) (m : String) → require b m ≡ ok tt → b ≡ true
required b m h = ground arith

attempt_counted-validate :
    (a : ObservationAttempt) → validate_attempt a ≡ ok tt → attempt_counted a ≡ true
unfolding validate_attempt attempt_counted
attempt_counted-validate a h =
    let (checks, content) = >>-eq-ok _ (validate_content a.ocr_state a.content) h in
    let (before, agrees) =
      >>-eq-ok _ (require (presence_matches a.content a.presence_state) _) checks in
    let (first, axes) =
      >>-eq-ok _ (require (matches_axis a.attempt_status a.evidence_state a.content) _) before in
    let axis : matches_axis a.attempt_status a.evidence_state a.content ≡ true =
      required _ _ axes in
    let presence : presence_matches a.content a.presence_state ≡ true = required _ _ agrees in
    elim (Option-cases (captured_presence a)) [
      | inl missing ↦ ground arith
      | inr (p, found) ↦
          let (c, e) = captured_presence_class a p found in
          let field =
            matched_presence a.attempt_status a.evidence_state a.content a.presence_state in
          ground (arith, axis, presence, c, e, field, found)
    ]

observation_counted :
    (e : EventEnvelope) (a : ObservationAttempt)
    → validate_observation e a ≡ ok tt
    → attempt_counted a ≡ true
unfolding validate_observation
observation_counted e a h = elim (Option-cases e.scheduled_at) [
  | inl missing ↦ absurd (ground arith)
  | inr (at, found) ↦
      let (checks, expiry) =
        >>-eq-ok _ (refuse (expires_early e.recorded_at a.content) _) (scheduled at found) in
      attempt_counted-validate a (>>-eq-ok (refuse (ltb e.observed_at at) _) _ checks).1
]
  where
    scheduled :
        (at : Instant)
        → e.scheduled_at ≡ some at
        → (refuse (ltb e.observed_at at) "observed_at must not precede scheduled_at"
            >> validate_attempt a
            >> refuse
                (expires_early e.recorded_at a.content)
                "image expiry must follow event recording")
          ≡ ok tt
    scheduled at found = ground arith

payload_counted : (e : EventEnvelope) → validate_payload e ≡ ok tt → presence_counted e ≡ true
unfolding validate_payload presence_counted
payload_counted e h = ground (arith, observation_counted e)

presence_counted-validate : (e : EventEnvelope) → validate e ≡ ok tt → presence_counted e ≡ true
unfolding validate
presence_counted-validate e h =
    let (checks, names) = >>-eq-ok _ (refuse _ _) h in
    payload_counted e (>>-eq-ok _ (validate_payload e) checks).1

abbrev pub valid : EventEnvelope → Bool
valid e = is_ok (validate e)

every-presence_counted :
    (es : List EventEnvelope) → every valid es ≡ true → every presence_counted es ≡ true
every-presence_counted [] h = refl
every-presence_counted (e ∷ es) h = elim (Result-cases (validate e)) [
  | inl (u, passed) ↦
      let own = presence_counted-validate e passed in ground (arith, every-presence_counted es)
  | inr (m, failed) ↦ absurd (ground arith)
]

-- Where `validate` accepts the events, a bucket is assigned without an error. Its six evidence
-- classes come to its 300 seconds, and the three presences to the captured ones.
pub assign_coverage-partitions :
    (events : List EventEnvelope) (bucket : Instant)
    → every valid events ≡ true
    → (a : CoverageAssignment) × (assign_coverage events bucket ≡ ok a)
      × (a.assigned ≡ assigned_seconds events bucket)
      × (length a.assigned ≡ 300)
      × (evidence_total a.evidence_seconds ≡ 300)
      × (presence_total a.presence_seconds ≡ a.evidence_seconds.captured)
unfolding assign_coverage
assign_coverage-partitions events bucket h =
    let counted = every-presence_counted events h in
    let ss = assigned_seconds events bucket in
    let n = assigned-length events bucket in
    let evidence = evidence-total ss n in
    let presence = presence-total ss n (assigned-matched events bucket counted) in
    (summary ss, summarize-summary ss evidence presence, refl, n, evidence, presence)
