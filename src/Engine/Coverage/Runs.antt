-- ===== src/Engine/Coverage/Runs.antt =====
-- What is said of the gaps of a bucket, and that they are in order.
use open_chronicle_next.Base.{
  ℕ, zero, suc, ◌+◌, ◌-◌, ◌≡◌, refl, inl, inr, Bool, true, false, ◌&&◌, Option, none, some, List,
  [], ◌∷◌, arith, length, ltb, leb, ◌==◌, if◌then◌else◌, Bool-cases,
}
use open_chronicle_next.Domain.Time.{Instant, seconds}
use open_chronicle_next.Domain.Chunk.{ChunkGap, ChunkGapKind}
use open_chronicle_next.Engine.Coverage.Seconds.{
  AssignedSecond, SampleSpan, ExplicitGap, assign, assign_seconds,
}
use open_chronicle_next.Engine.Coverage.Gaps.{
  Run, kind_code, gap_kind, continues, open_run, run_gap, coalesce_from,
}

-- The seconds that follow each other from an instant.
abbrev pub consecutive : Instant → List AssignedSecond → Bool
consecutive at [] = true
consecutive at (s ∷ ss) = (s.start == at) && consecutive (at + seconds 1) ss

pub assign_seconds-consecutive :
    (gs : List ExplicitGap) (xs : List SampleSpan) (n : ℕ) (at : Instant)
    → consecutive at (assign_seconds gs xs n at) ≡ true
unfolding assign_seconds assign
assign_seconds-consecutive gs xs zero at = refl
assign_seconds-consecutive gs xs (suc n) at =
    ground (arith, assign_seconds-consecutive gs xs n (at + seconds 1))

-- The gaps are non-empty, in order, disjoint and between two instants.
unfoldable pub ordered_gaps : (from to : Instant) → List ChunkGap → Bool
ordered_gaps from to [] = leb from to
ordered_gaps from to (g ∷ gs) = leb from g.start && ltb g.start g.end && ordered_gaps g.end to gs

-- The seconds that are of a kind of gap, and the time that the gaps of that kind take.
abbrev pub of_kind : ChunkGapKind → AssignedSecond → Bool
of_kind k s = elim (gap_kind s.evidence) [ none ↦ false | some j ↦ kind_code j == kind_code k ]

unfoldable pub gap_time : ChunkGapKind → List ChunkGap → ℕ
gap_time k [] = 0
gap_time k (g ∷ gs) =
    let rest = gap_time k gs in
    if kind_code g.kind == kind_code k then (g.end - g.start) + rest else rest

abbrev pub run_time : ChunkGapKind → Option Run → ℕ
run_time k none = 0
run_time k (some r) = if kind_code r.kind == kind_code k then (r.last + seconds 1) - r.start else 0

abbrev pub run_from : Option Run → Instant → Instant
run_from none at = at
run_from (some r) at = r.start

-- A run ends where the next second starts.
abbrev pub run_reaches : Option Run → Instant → Bool
run_reaches none at = true
run_reaches (some r) at = leb r.start r.last && (r.last + seconds 1 == at)

ordered-from :
    (a b to : Instant) (gs : List ChunkGap)
    → leb a b ≡ true
    → ordered_gaps b to gs ≡ true
    → ordered_gaps a to gs ≡ true
unfolding ordered_gaps
ordered-from a b to [] l h = ground arith
ordered-from a b to (g ∷ gs) l h = ground arith

-- The gap of a run that ends before a list of gaps.
closed_run :
    (r : Run) (at to : Instant) (gs : List ChunkGap)
    → run_reaches (some r) at ≡ true
    → ordered_gaps at to gs ≡ true
    → ordered_gaps r.start to (run_gap r ∷ gs) ≡ true
unfolding ordered_gaps
closed_run r at to gs h k = ground (arith, ordered-from (r.last + seconds 1) at to gs)

-- A run that opens at a second ends with it.
pub open_run-reaches :
    (s : AssignedSecond) (at : Instant)
    → s.start ≡ at
    → (run_reaches (open_run s) (at + seconds 1) ≡ true)
      × (leb at (run_from (open_run s) (at + seconds 1)) ≡ true)
unfolding open_run
open_run-reaches s at h = ground arith

pub run-longer :
    (r : Run) (s : AssignedSecond) (at : Instant)
    → s.start ≡ at
    → run_reaches (some r) at ≡ true
    → run_reaches (some (record r { last = s.start })) (at + seconds 1) ≡ true
run-longer r s at e h = ground arith

pub consecutive-split :
    (at : Instant) (s : AssignedSecond) (ss : List AssignedSecond)
    → consecutive at (s ∷ ss) ≡ true
    → (s.start ≡ at) × (consecutive (at + seconds 1) ss ≡ true)
consecutive-split at s ss c = ground arith

end-suc : (at n : ℕ) → at + seconds (suc n) ≡ (at + seconds 1) + seconds n
end-suc at n = omega arith

pub coalesce_from-ordered :
    (r : Option Run) (at : Instant) (ss : List AssignedSecond)
    → run_reaches r at ≡ true
    → consecutive at ss ≡ true
    → ordered_gaps (run_from r at) (at + seconds (length ss)) (coalesce_from r ss) ≡ true
unfolding coalesce_from ordered_gaps
coalesce_from-ordered none at [] h c = ground arith
coalesce_from-ordered (some r) at [] h c = ground arith
coalesce_from-ordered none at (s ∷ ss) h c =
    let (e, tail) = consecutive-split at s ss c in
    let (reaches, from) = open_run-reaches s at e in
    let rest = coalesce_from-ordered (open_run s) (at + seconds 1) ss reaches tail in
    rw (end-suc at (length ss)) (ordered-from at _ _ (coalesce_from (open_run s) ss) from rest)
coalesce_from-ordered (some r) at (s ∷ ss) h c =
    let (e, tail) = consecutive-split at s ss c in
    let (reaches, from) = open_run-reaches s at e in
    let rest = coalesce_from-ordered (open_run s) (at + seconds 1) ss reaches tail in
    let weak = ordered-from at _ _ (coalesce_from (open_run s) ss) from rest in
    let longer =
      coalesce_from-ordered (some (record r { last = s.start })) (at + seconds 1) ss
        (run-longer r s at e h) tail in
    rw (end-suc at (length ss)) (elim (Bool-cases (continues r s)) [
      | inl joined ↦ rw joined longer
      | inr apart ↦ rw apart (closed_run r at _ (coalesce_from (open_run s) ss) h weak)
    ])
