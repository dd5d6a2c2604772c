-- ===== src/Engine/Runtime/Chain.antt =====
-- The gaps of a startup intent.
use open_chronicle_next.Base.{
  ◌≡◌, ◌⊎◌, inl, inr, sym, ap, subst, true, false, none, some, List, [], ◌∷◌, ◌++◌, length, ltb,
  ◌==◌, arith, Bool-cases, Option-cases,
}
use open_chronicle_next.Base.Outcome.{ok, err, ◌>>◌, map_err, >>-eq-ok, Result-cases}
use open_chronicle_next.Domain.Time.{Instant}
use open_chronicle_next.Domain.Event.{EventEnvelope, RecordingGap, GapReason}
use open_chronicle_next.Domain.Event.Validate.{validate}
use open_chronicle_next.Engine.Errors.{configuration, aggregation}
use open_chronicle_next.Engine.Runtime.{GapLibrary, StartupReconcileRequest}
use open_chronicle_next.Engine.Runtime.Validate.{
  gap_of, continues, check_gaps, check_chain, validate_pending_gap_events,
}
use open_chronicle_next.Engine.Runtime.Startup.{
  restart_gap, restart_gap_event, gap_since, last_gap_end,
}

-- An event that is a gap and can follow one that ends at a boundary.
abbrev pub Follows : Instant → EventEnvelope → Type 0
Follows boundary e =
    (gap : RecordingGap) × (gap_of e.payload ≡ some gap)
    × (validate e ≡ ok tt)
    × (continues boundary gap ≡ true)

made_valid :
    (lib : GapLibrary) (start end : Instant) (reason : GapReason) (r : StartupReconcileRequest)
    (e : EventEnvelope)
    → restart_gap_event lib start end reason r ≡ ok e
    → (restart_gap lib start end reason r ≡ e) × (validate e ≡ ok tt)
unfolding restart_gap_event
made_valid lib start end reason r e h =
    let built = restart_gap lib start end reason r in
    let (checked, same) = >>-eq-ok (map_err aggregation (validate built)) (ok built) h in
    let is : built ≡ e = ground (arith, same) in
    (is, subst (λ x. validate x ≡ ok tt) is (ground arith))

-- There is no gap since the boundary, or one that runs from there.
pub gap_since_lem :
    (lib : GapLibrary) (boundary : Instant) (r : StartupReconcileRequest) (es : List EventEnvelope)
    → gap_since lib boundary r ≡ ok es
    → ((es ≡ []) × (boundary ≡ r.now)) ⊎ ((e : EventEnvelope) × (es ≡ e ∷ []) × Follows boundary e)
unfolding gap_since
gap_since_lem lib boundary r es h = elim (Bool-cases (ltb boundary r.now)) [
  | inl forward ↦ elim (Result-cases (restart_gap_event lib boundary r.now GapReason.quit r)) [
    | inr (e, failed) ↦ absurd (ground arith)
    | inl (e, made) ↦
        let (is, valid) = made_valid lib boundary r.now GapReason.quit r e made in
        inr (e, ground arith, (_, sym (ap (λ x. gap_of x.payload) is), valid, ground arith))
  ]
  | inr late ↦ elim (Bool-cases (ltb r.now boundary)) [
    | inl backward ↦
        elim (Result-cases (restart_gap_event lib r.now boundary GapReason.clock_correction r)) [
          | inr (e, failed) ↦ absurd (ground arith)
          | inl (e, made) ↦
              let (is, valid) = made_valid lib r.now boundary GapReason.clock_correction r e made in
              inr (e, ground arith, (_, sym (ap (λ x. gap_of x.payload) is), valid, ground arith))
        ]
    | inr same ↦ inl (ground arith, ground arith)
  ]
]

check_gaps-append :
    (es : List EventEnvelope) (f : EventEnvelope) (gap : RecordingGap)
    → check_gaps es ≡ ok tt
    → gap_of f.payload ≡ some gap
    → validate f ≡ ok tt
    → check_gaps (es ++ f ∷ []) ≡ ok tt
unfolding check_gaps
check_gaps-append [] f gap h is valid = ground arith
check_gaps-append (e ∷ es) f gap h is valid =
    let (first, rest) =
      >>-eq-ok (map_err aggregation (validate e))
        (elim (gap_of e.payload) [
          | none ↦ err (configuration "pending startup reconciliation contains a non-gap event")
          | some g ↦ check_gaps es
        ])
        h in
    elim (Option-cases (gap_of e.payload)) [
      | inl other ↦ absurd (ground (arith, rest, other))
      | inr (g, found) ↦
          let more = check_gaps-append es f gap (ground (arith, rest, found)) is valid in
          ground (arith, first, found, more)
    ]

check_chain-append :
    (es : List EventEnvelope) (f : EventEnvelope) (t : Instant) (gap : RecordingGap)
    → check_chain es ≡ ok tt
    → last_gap_end es ≡ some t
    → gap_of f.payload ≡ some gap
    → continues t gap ≡ true
    → check_chain (es ++ f ∷ []) ≡ ok tt
unfolding check_chain
check_chain-append [] f t gap h last is next = absurd (ground arith)
check_chain-append (e ∷ []) f t gap h last is next = elim (Option-cases (gap_of e.payload)) [
  | inl other ↦ absurd (ground arith)
  | inr (g, found) ↦ ground arith
]
check_chain-append (e ∷ e' ∷ es) f t gap h last is next =
    let more = check_chain-append (e' ∷ es) f t gap in ground (arith, h, last, more, is, next)

pub valid_one :
    (t : Instant) (f : EventEnvelope) → Follows t f → validate_pending_gap_events (f ∷ []) ≡ ok tt
unfolding validate_pending_gap_events check_gaps check_chain
valid_one t f (gap, is, valid, next) = ground (arith, is, valid)

-- The first check passes where there is an event.
some_events :
    (es : List EventEnvelope)
    → (length es == 0) ≡ false
    → validate_pending_gap_events es ≡ ok tt
    → (check_gaps es >> check_chain es) ≡ ok tt
unfolding validate_pending_gap_events
some_events es nonempty h = ground (arith, nonempty, h)

pub valid_append :
    (es : List EventEnvelope) (t : Instant) (f : EventEnvelope)
    → validate_pending_gap_events es ≡ ok tt
    → last_gap_end es ≡ some t
    → Follows t f
    → validate_pending_gap_events (es ++ f ∷ []) ≡ ok tt
unfolding validate_pending_gap_events
valid_append [] t f h last follows = absurd (ground (arith, last))
valid_append (e ∷ es) t f h last (gap, is, valid, next) =
    let (front, chained) =
      >>-eq-ok (check_gaps (e ∷ es)) (check_chain (e ∷ es))
        (some_events (e ∷ es) (ground arith) h) in
    let all = check_gaps-append (e ∷ es) f gap front is valid in
    let linked = check_chain-append (e ∷ es) f t gap chained last is next in
    ground (arith, all, linked)
