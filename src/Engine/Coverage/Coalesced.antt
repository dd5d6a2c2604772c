-- ===== src/Engine/Coverage/Coalesced.antt =====
-- The gaps of a bucket, against the seconds that they are made of.
use open_chronicle_next.Base.{
  ℕ, ◌+◌, ◌≤◌, ◌≡◌, refl, subst, length-retain-le, inl, inr, true, Option, none, some, List, [],
  ◌∷◌, arith, length, retain, if◌then◌else◌, Bool-cases,
}
use open_chronicle_next.Domain.Time.{Instant, seconds}
use open_chronicle_next.Domain.Event.{EventEnvelope}
use open_chronicle_next.Domain.Chunk.{ChunkGap, ChunkGapKind, for_gap_kind}
use open_chronicle_next.Engine.Coverage.Seconds.{
  EvidenceClass, AssignedSecond, assign_seconds, spans, explicit_gaps,
}
use open_chronicle_next.Engine.Coverage.Gaps.{
  Run, gap_kind, continues, open_run, run_gap, coalesce_from, coalesce_gaps, assigned_seconds,
  of_class, evidence_seconds_of, count,
}
use open_chronicle_next.Engine.Coverage.Partition.{length-assign_seconds}
use open_chronicle_next.Engine.Coverage.Runs.{
  consecutive, assign_seconds-consecutive, ordered_gaps, of_kind, gap_time, run_time, run_reaches,
  open_run-reaches, run-longer, consecutive-split, coalesce_from-ordered,
}

-- One second's share of a kind.
abbrev kind_time : ChunkGapKind → AssignedSecond → ℕ
kind_time k s = if of_kind k s then seconds 1 else 0

open_run-time : (k : ChunkGapKind) (s : AssignedSecond) → run_time k (open_run s) ≡ kind_time k s
unfolding open_run
open_run-time k s = ground arith

continues-time :
    (k : ChunkGapKind) (r : Run) (s : AssignedSecond) (at : Instant)
    → s.start ≡ at
    → run_reaches (some r) at ≡ true
    → continues r s ≡ true
    → run_time k (some (record r { last = s.start })) ≡ run_time k (some r) + kind_time k s
unfolding continues
continues-time k r s at e h c = ground arith

-- The time of the seconds of a kind.
abbrev spent : ChunkGapKind → List AssignedSecond → ℕ
spent k ss = seconds (length (retain (of_kind k) ss))

spent-cons :
    (k : ChunkGapKind) (s : AssignedSecond) (ss : List AssignedSecond)
    → spent k (s ∷ ss) ≡ kind_time k s + spent k ss
spent-cons k s ss = ground arith

closed-time :
    (k : ChunkGapKind) (r : Run) (gs : List ChunkGap)
    → gap_time k (run_gap r ∷ gs) ≡ run_time k (some r) + gap_time k gs
unfolding gap_time
closed-time k r gs = ground arith

coalesce_from-time :
    (k : ChunkGapKind) (r : Option Run) (at : Instant) (ss : List AssignedSecond)
    → run_reaches r at ≡ true
    → consecutive at ss ≡ true
    → gap_time k (coalesce_from r ss) ≡ run_time k r + spent k ss
unfolding coalesce_from gap_time
coalesce_from-time k none at [] h c = ground arith
coalesce_from-time k (some r) at [] h c = closed-time k r []
coalesce_from-time k none at (s ∷ ss) h c =
    let (e, tail) = consecutive-split at s ss c in
    let (reaches, from) = open_run-reaches s at e in
    let opened = open_run-time k s in
    let split = spent-cons k s ss in
    let rest = coalesce_from-time k (open_run s) (at + seconds 1) ss reaches tail in
    omega (arith, rest, opened, split)
coalesce_from-time k (some r) at (s ∷ ss) h c =
    let (e, tail) = consecutive-split at s ss c in
    let (reaches, from) = open_run-reaches s at e in
    let opened = open_run-time k s in
    let split = spent-cons k s ss in
    let rest = coalesce_from-time k (open_run s) (at + seconds 1) ss reaches tail in
    let longer =
      coalesce_from-time k (some (record r { last = s.start })) (at + seconds 1) ss
        (run-longer r s at e h) tail in
    elim (Bool-cases (continues r s)) [
      | inl joined ↦
          let more = continues-time k r s at e h joined in
          rw joined (omega (arith, longer, split, more))
      | inr apart ↦
          let closed = closed-time k r (coalesce_from (open_run s) ss) in
          rw apart (omega (arith, closed, rest, split, opened))
    ]

abbrev kind_class : ChunkGapKind → EvidenceClass
kind_class ChunkGapKind.protected = EvidenceClass.protected
kind_class ChunkGapKind.paused = EvidenceClass.paused
kind_class ChunkGapKind.unavailable = EvidenceClass.unavailable
kind_class ChunkGapKind.error = EvidenceClass.error
kind_class ChunkGapKind.missing_observation = EvidenceClass.gap

-- The seconds of a kind of gap are those of its class.
spent-count :
    (k : ChunkGapKind) (ss : List AssignedSecond)
    → length (retain (of_kind k) ss) ≡ length (retain (of_class (kind_class k)) ss)
unfolding gap_kind
spent-count k [] = refl
spent-count k (s ∷ ss) = ground (arith, spent-count k ss)

spent-seconds :
    (k : ChunkGapKind) (ss : List AssignedSecond)
    → length ss ≤ 300
    → spent k ss ≡ seconds (for_gap_kind (evidence_seconds_of ss) k)
unfolding evidence_seconds_of count
spent-seconds k ss n =
    let same = spent-count k ss in
    let bound = length-retain-le (of_class (kind_class k)) ss in
    elim k [
      | ChunkGapKind.protected ↦ ground arith
      | ChunkGapKind.paused ↦ ground arith
      | ChunkGapKind.unavailable ↦ ground arith
      | ChunkGapKind.error ↦ ground arith
      | ChunkGapKind.missing_observation ↦ ground arith
    ]

-- The gaps of a bucket are non-empty, disjoint, in order and inside the bucket, and those of each
-- kind last together as many seconds as the count of that kind says.
pub coalesce_gaps-assigned_seconds :
    (events : List EventEnvelope) (bucket : Instant) (k : ChunkGapKind)
    → (ordered_gaps bucket (bucket + seconds 300) (coalesce_gaps (assigned_seconds events bucket))
        ≡ true)
      × (gap_time k (coalesce_gaps (assigned_seconds events bucket))
          ≡ seconds (for_gap_kind (evidence_seconds_of (assigned_seconds events bucket)) k))
unfolding coalesce_gaps assigned_seconds
coalesce_gaps-assigned_seconds events bucket k = (
  subst (λ n. ordered_gaps bucket (bucket + seconds n) (coalesce_from none ss) ≡ true) n
      (coalesce_from-ordered none bucket ss refl order),
  omega (
    arith,
    coalesce_from-time k none bucket ss refl order,
    spent-seconds k ss (omega (arith, n)),
  ),
)
  where
    ss : List AssignedSecond
    ss = assign_seconds (explicit_gaps bucket events) (spans bucket events) 300 bucket

    n : length ss ≡ 300
    n = length-assign_seconds (explicit_gaps bucket events) (spans bucket events) 300 bucket

    order : consecutive bucket ss ≡ true
    order =
        assign_seconds-consecutive (explicit_gaps bucket events) (spans bucket events) 300 bucket
