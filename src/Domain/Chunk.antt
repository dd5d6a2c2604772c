-- ===== src/Domain/Chunk.antt =====
-- crates/chronicle-domain/src/chunk.rs: the counts and gaps of a chunk. The sums of seconds are
-- sums of 32-bit numbers; those of a bucket are at most 300 each.
use open_chronicle_next.Base.{ℕ, ◌+◌, String, Option, List}
use open_chronicle_next.Domain.Time.{Instant}

pub record EvidenceSeconds : Type 0 where
  pub captured : ℕ
  pub protected : ℕ
  pub paused : ℕ
  pub unavailable : ℕ
  pub error : ℕ
  pub gap : ℕ

-- `EvidenceSeconds::total`.
abbrev pub evidence_total : EvidenceSeconds → ℕ
evidence_total s = s.captured + s.protected + s.paused + s.unavailable + s.error + s.gap

pub record PresenceSeconds : Type 0 where
  pub active : ℕ
  pub idle : ℕ
  pub unknown : ℕ

-- `PresenceSeconds::total`.
abbrev pub presence_total : PresenceSeconds → ℕ
presence_total s = s.active + s.idle + s.unknown

pub data ChunkGapKind : Type 0 where
  protected paused unavailable error missing_observation : ChunkGapKind

-- `EvidenceSeconds::for_gap_kind`.
abbrev pub for_gap_kind : EvidenceSeconds → ChunkGapKind → ℕ
for_gap_kind s protected = s.protected
for_gap_kind s paused = s.paused
for_gap_kind s unavailable = s.unavailable
for_gap_kind s error = s.error
for_gap_kind s missing_observation = s.gap

pub record ChunkGap : Type 0 where
  pub start : Instant
  pub end : Instant
  pub kind : ChunkGapKind
  pub supporting_event_ids : List ℕ

pub record Transition : Type 0 where
  pub at : Instant
  pub from_key : Option String
  pub to_key : String
  pub supporting_event_id : ℕ
