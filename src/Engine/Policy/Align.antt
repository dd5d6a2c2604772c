-- ===== src/Engine/Policy/Align.antt =====
-- crates/chronicle-engine/src/policy.rs: the range that a grant allows, and its five-minute buckets.
use open_chronicle_next.Base.{
  ℕ, ◌+◌, ◌-◌, ◌*◌, ◌%◌, ◌^◌, Option, none, some, ltb, leb, ◌==◌, if◌then◌else◌,
}
use open_chronicle_next.Base.Outcome.{Result, ok, refuse, ok_or, ◌>>=◌, ◌>>◌}
use open_chronicle_next.Domain.Time.{Instant, UtcRange, nanos, seconds, timestamp}
use open_chronicle_next.Domain.Grant.{DisclosureGrant, absolute, rolling_horizon, ContentClass}

pub data PolicyError : Type 0 where
  content_denied : ContentClass → PolicyError
  range_denied range_limit invalid_range panicked : PolicyError

-- `DateTime::from_timestamp(second, 0)`, with the last second that can be represented.
unfoldable pub from_timestamp : ℕ → ℕ → Option Instant
from_timestamp last second = if leb second last then some (second * nanos) else none

-- chrono's `Duration::seconds` holds at most `i64::MAX / 1000` seconds.
abbrev pub max_duration_seconds : ℕ
max_duration_seconds = 9_223_372_036_854_775

-- `allowed_range`.
unfoldable pub allowed_range : DisclosureGrant → Instant → Result PolicyError UtcRange
allowed_range g now = elim g.time_scope [
  | absolute range ↦ ok range
  | rolling_horizon horizon ↦ do
    refuse (leb (2 ^ 63) horizon) invalid_range
    refuse (ltb max_duration_seconds horizon) panicked
    refuse (ltb now (seconds horizon)) invalid_range
    ok (record { start = now - seconds horizon; end = now })
]

-- The epoch second of the first bucket that begins no earlier than the second of `start`.
abbrev pub first_bucket : Instant → ℕ
first_bucket start =
    if timestamp start % 300 == 0
    then timestamp start
    else timestamp start + (300 - timestamp start % 300)

abbrev pub last_bucket : Instant → ℕ
last_bucket end = timestamp end - timestamp end % 300

-- `align_inward`.
unfoldable pub align_inward : ℕ → Instant → Instant → Result PolicyError (Option UtcRange)
unfolding from_timestamp
align_inward last start end = if leb (last_bucket end) (first_bucket start) then ok none else do
  aligned_start ← ok_or (from_timestamp last (first_bucket start)) invalid_range
  aligned_end ← ok_or (from_timestamp last (last_bucket end)) invalid_range
  ok (some (record { start = aligned_start; end = aligned_end }))
