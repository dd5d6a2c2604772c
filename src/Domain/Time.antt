-- ===== src/Domain/Time.antt =====
-- `DateTime<Utc>` and `UtcRange` of crates/chronicle-domain/src/config.rs. An instant is its
-- distance in nanoseconds from chrono's `MIN_UTC`, which is a UTC midnight, so that an epoch second
-- and a second counted here agree modulo 300. Leap-second instants are left out.
use open_chronicle_next.Base.{ℕ, ◌*◌, ◌/◌, String, ltb}
use open_chronicle_next.Base.Outcome.{Result, require}

abbrev pub Instant : Type 0
Instant = ℕ

abbrev pub nanos : ℕ
nanos = 1_000_000_000

-- `Duration::seconds`.
abbrev pub seconds : ℕ → ℕ
seconds n = n * nanos

-- `DateTime::timestamp`: whole seconds, rounded down.
abbrev pub timestamp : Instant → ℕ
timestamp t = t / nanos

pub record UtcRange : Type 0 where
  pub start : Instant
  pub end : Instant

-- `UtcRange::validate`.
unfoldable pub validate_range : UtcRange → Result String (Unit {0})
validate_range r = require (ltb r.start r.end) "time range start must precede end"
