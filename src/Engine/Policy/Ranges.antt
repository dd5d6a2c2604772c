-- ===== src/Engine/Policy/Ranges.antt =====
-- What `align_inward` makes of a range, and what that means for a query under a grant.
use open_chronicle_next.Base.{
  ℕ, ◌+◌, ◌*◌, ◌/◌, ◌%◌, ◌≤◌, ◌<◌, ◌≡◌, ◌≢◌, ◌⊎◌, inl, inr, some, arith, Bool-cases, ◌==◌,
}
use open_chronicle_next.Base.Outcome.{ok}
use open_chronicle_next.Domain.Time.{Instant, UtcRange, nanos, seconds, timestamp}
use open_chronicle_next.Engine.Policy.Align.{
  align_inward, from_timestamp, first_bucket, last_bucket,
}

-- A range of whole five-minute buckets that is not empty.
pub record IsAligned (r : UtcRange) : Type 0 where
  pub starts : r.start % seconds 300 ≡ 0
  pub ends : r.end % seconds 300 ≡ 0
  pub positive : r.start < r.end

-- The two bucket bounds as numbers of seconds.
first_bucket_bounds :
    (t : Instant)
    → (first_bucket t % 300 ≡ 0)
      × (t < first_bucket t * nanos + nanos)
      × (t % nanos ≡ 0 → t ≤ first_bucket t * nanos)
      × (first_bucket t < timestamp t + 300)
first_bucket_bounds t = (ground arith, ground arith, ground arith, ground arith)

last_bucket_bounds :
    (t : Instant)
    → (last_bucket t % 300 ≡ 0) × (last_bucket t * nanos ≤ t) × (timestamp t < last_bucket t + 300)
last_bucket_bounds t = (omega arith, omega arith, omega arith)

-- A whole number of buckets, in nanoseconds.
buckets : (n : ℕ) → n % 300 ≡ 0 → (n * nanos) % seconds 300 ≡ 0
buckets n h = omega arith

-- The bounds are the nearest ones: a bucket that begins later than `t` begins no earlier than the
-- first, and one that ends by `t` ends no later than the last.
first_bucket_least : (t k : ℕ) → t ≤ k * 300 * nanos → first_bucket t ≤ k * 300
first_bucket_least t k h = ground arith

last_bucket_greatest : (t k : ℕ) → k * 300 * nanos ≤ t → k * 300 ≤ last_bucket t
last_bucket_greatest t k h = omega arith

align_inward_parts :
    (last : ℕ) (start end : Instant) (r : UtcRange)
    → align_inward last start end ≡ ok (some r)
    → (r.start ≡ first_bucket start * nanos)
      × (r.end ≡ last_bucket end * nanos)
      × (first_bucket start < last_bucket end)
unfolding align_inward
align_inward_parts last start end r h = ground arith

-- What `align_inward` returns is aligned, ends no later than the range given, and begins less than
-- a second before it; no earlier, if the range begins on a whole second.
pub align_inward-inside :
    (last : ℕ) (start end : Instant) (r : UtcRange)
    → align_inward last start end ≡ ok (some r)
    → IsAligned r
      × (r.end ≤ end)
      × (start < r.start + nanos)
      × ((start ≤ r.start) ⊎ (0 < start % nanos))
align_inward-inside last start end r h =
    let (starts, ends, order) = align_inward_parts last start end r h in
    let (first_aligned, near, exact, _) = first_bucket_bounds start in
    let (last_aligned, below, _) = last_bucket_bounds end in
    (
      record {
        starts = rw starts (buckets (first_bucket start) first_aligned);
        ends = rw ends (buckets (last_bucket end) last_aligned);
        positive = omega arith;
      },
      omega arith,
      omega arith,
      elim (Bool-cases (start % nanos == 0)) [
        | inl whole ↦ inl (omega (arith, exact (ground arith)))
        | inr part ↦ inr (ground arith)
      ],
    )

-- Every bucket that lies within the range lies within what `align_inward` returns, where the end of
-- the range can be represented in whole seconds.
pub align_inward_complete :
    (last : ℕ) (start end bucket : Instant)
    → timestamp end ≤ last
    → bucket % seconds 300 ≡ 0
    → start ≤ bucket
    → bucket + seconds 300 ≤ end
    → (r : UtcRange) × (align_inward last start end ≡ ok (some r))
      × (r.start ≤ bucket)
      × (bucket + seconds 300 ≤ r.end)
unfolding align_inward
align_inward_complete last start end bucket fits aligned from to = (
  record { start = first_bucket start * nanos; end = last_bucket end * nanos },
  ground (arith, begins, ends, fits),
  omega (arith, whole, begins),
  omega (arith, whole, ends),
)
  where
    k : ℕ
    k = bucket / seconds 300

    whole : bucket ≡ k * 300 * nanos
    whole = omega arith

    begins : first_bucket start ≤ k * 300
    begins = first_bucket_least start k (omega (arith, whole))

    ends : (k + 1) * 300 ≤ last_bucket end
    ends = last_bucket_greatest end (k + 1) (omega (arith, whole))

-- A range of at least a bucket that begins within the first second of a bucket, but not on it, is
-- rounded outward: where its end can be represented, what `align_inward` returns begins before the
-- range does.
pub align_inward-early :
    (last : ℕ) (start end : Instant)
    → timestamp end ≤ last
    → timestamp start % 300 ≡ 0
    → start % nanos ≢ 0
    → start + seconds 300 ≤ end
    → (r : UtcRange) × (align_inward last start end ≡ ok (some r)) × (r.start < start)
unfolding align_inward from_timestamp
align_inward-early last start end fits bucket part room = (
  record { start = first_bucket start * nanos; end = last_bucket end * nanos },
  ground arith,
  ground arith,
)
