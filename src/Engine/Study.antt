-- ===== src/Engine/Study.antt =====
-- crates/chronicle-engine/src/study.rs: `StudyController`. A call holds the configuration lock from
-- its read to its write, so it is one action on config.json.
pub mod Window
pub mod Latch
pub mod Summary
pub mod Extension
mod Tests
use open_chronicle_next.Base.{
  Bool, true, false, ◌&&◌, ◌||◌, Option, none, some, ltb, leb, if◌then◌else◌,
}
use open_chronicle_next.Base.Outcome.{Result, ok, err}
use open_chronicle_next.Base.Outcome
use open_chronicle_next.Base.Action.{pure, raise, lift, ◌>>=◌, ◌>>◌}
use open_chronicle_next.Domain.Time.{Instant}
use open_chronicle_next.Store.World.{StoreGeneration}
use open_chronicle_next.Engine.Errors.{EngineError, configuration, study_not_started, study_expired}
use open_chronicle_next.Engine.Config.{
  Entry, RecordingMode, ConfigAction, ConfigPlatform, personal, study, absent, malformed, present,
  enter, read_document, write_document, get,
}

pub record StudyBoundary : Type 0 where
  pub start : Instant
  pub end : Instant

-- `StudyBoundary::validate`.
unfoldable pub validate_boundary : StudyBoundary → Result EngineError StudyBoundary
validate_boundary b =
    if leb b.end b.start then err (configuration "study start must precede study end") else ok b

-- `StudyBoundary::contains`.
abbrev pub contains : StudyBoundary → Instant → Bool
contains b now = leb b.start now && ltb now b.end

-- `RecordingMode::boundary`.
abbrev pub boundary : RecordingMode → Option StudyBoundary
boundary personal = none
boundary (study start end expired_at) = some (record { start = start; end = end })

-- A latch does not precede the end.
abbrev check_latch : Instant → Option Instant → Result EngineError (Unit {0})
check_latch end none = ok tt
check_latch end (some expired_at) =
    Outcome.refuse (ltb expired_at end)
      (configuration "study expiry latch cannot precede the study end")

-- The checks of `read_mode_locked`.
unfoldable pub check_mode : RecordingMode → Result EngineError RecordingMode
unfolding validate_boundary
check_mode personal = ok personal
check_mode (study start end expired_at) =
    elim (validate_boundary (record { start = start; end = end })) [
      | err e ↦ err e
      | ok b ↦ elim (check_latch end expired_at) [
        | err e ↦ err e
        | ok u ↦ ok (study start end expired_at)
      ]
    ]

-- The mode of a document, which is `Personal` where it has none.
unfoldable pub entry_mode : Entry RecordingMode → Result EngineError RecordingMode
unfolding check_mode
entry_mode absent = ok personal
entry_mode malformed = err (configuration "malformed value")
entry_mode (present mode) = check_mode mode

-- `read_mode_locked`.
unfoldable pub read_mode_locked : ConfigPlatform → ConfigAction RecordingMode
read_mode_locked os = do d ← read_document os; lift (entry_mode d.recording_mode)

-- `write_mode_locked`.
unfoldable pub write_mode_locked : ConfigPlatform → RecordingMode → ConfigAction (Unit {0})
write_mode_locked os mode = do
  d ← read_document os
  write_document os (record d { recording_mode = present mode })

-- The expiry that `mode_at` latches.
abbrev pub elapsed : RecordingMode → Instant → Bool
elapsed personal now = false
elapsed (study start end none) now = leb end now
elapsed (study start end (some expired_at)) now = false

abbrev pub latched : RecordingMode → Instant → RecordingMode
latched personal now = personal
latched (study start end expired_at) now = study start end (some now)

-- The end of `mode_at`.
unfoldable pub latch : ConfigPlatform → RecordingMode → Instant → Bool → ConfigAction RecordingMode
latch os mode now latch_expiry =
    if elapsed mode now && latch_expiry
    then (write_mode_locked os (latched mode now) >> pure (latched mode now))
    else pure mode

module _ (os : ConfigPlatform) (g : StoreGeneration) where
  -- `mode`.
  unfoldable pub mode : ConfigAction RecordingMode
  mode = do enter os g; read_mode_locked os

  -- `mode_at`.
  unfoldable pub mode_at : Instant → Bool → ConfigAction RecordingMode
  mode_at now latch_expiry = do
    enter os g
    read ← read_mode_locked os
    latch os read now latch_expiry

  -- `write_mode`.
  unfoldable pub write_mode : RecordingMode → ConfigAction (Unit {0})
  write_mode next = do enter os g; write_mode_locked os next

  -- `configure_study`.
  unfoldable pub configure_study : StudyBoundary → ConfigAction StudyBoundary
  configure_study given = do
    b ← lift (validate_boundary given)
    write_mode (study b.start b.end none)
    pure b

  -- `set_personal`.
  unfoldable pub set_personal : ConfigAction (Unit {0})
  set_personal = write_mode personal

  -- `extend`.
  unfoldable pub extend : (new_end now : Instant) → ConfigAction StudyBoundary
  extend new_end now = do
    enter os g
    read ← read_mode_locked os
    b ← lift (Outcome.ok_or (boundary read) (configuration "personal mode has no study to extend"))
    lift (
        Outcome.refuse (leb new_end now || leb new_end b.end)
          (configuration "study extension must end after both now and the prior end"))
    write_mode_locked os (study b.start new_end none)
    pure (record { start = b.start; end = new_end })

  -- The `match` of `require_capture`.
  unfoldable pub judge_mode : RecordingMode → Instant → Result EngineError (Unit {0})
  judge_mode personal now = ok tt
  judge_mode (study start end (some expired_at)) now = err study_expired
  judge_mode (study start end none) now = if ltb now start then err study_not_started else ok tt

  -- `require_capture`.
  unfoldable pub require_capture : Instant → ConfigAction (Unit {0})
  require_capture now = do found ← mode_at now true; lift (judge_mode found now)

  -- The `match` of `capture_allowed`.
  abbrev allowed_result : Result EngineError (Unit {0}) → Result EngineError Bool
  allowed_result (ok u) = ok true
  allowed_result (err study_not_started) = ok false
  allowed_result (err study_expired) = ok false
  allowed_result (err e) = err e

  -- `capture_allowed`.
  unfoldable pub capture_allowed : Instant → ConfigAction Bool
  capture_allowed now w = let (r, w') = require_capture now w in (allowed_result r, w')
