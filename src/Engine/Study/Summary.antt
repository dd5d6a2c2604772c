-- ===== src/Engine/Study/Summary.antt =====
-- crates/chronicle-engine/src/study.rs: `health_summary`, with the summary's own check in
-- crates/chronicle-domain/src/health.rs.
use open_chronicle_next.Base.{
  Bool, true, false, ◌&&◌, ◌||◌, not, Option, none, some, ltb, leb, if◌then◌else◌,
}
use open_chronicle_next.Base.Outcome.{require}
use open_chronicle_next.Base.Action.{pure, lift, ◌>>=◌, ◌>>◌}
use open_chronicle_next.Domain.Time.{Instant}
use open_chronicle_next.Store.World.{StoreGeneration}
use open_chronicle_next.Engine.Errors.{configuration}
use open_chronicle_next.Engine.Config.{RecordingMode, ConfigAction, ConfigPlatform, study}
use open_chronicle_next.Engine.Study.{mode_at}

pub data StudyHealthState : Type 0 where
  personal scheduled active expired : StudyHealthState

pub record StudyHealthSummary : Type 0 where
  pub state : StudyHealthState
  pub start : Option Instant
  pub end : Option Instant
  pub expired_at : Option Instant

abbrev is_there : Option Instant → Bool
is_there none = false
is_there (some at) = true

-- What `health_summary` makes of a mode.
unfoldable pub summarize : RecordingMode → Instant → StudyHealthSummary
summarize RecordingMode.personal now = record {
  state = StudyHealthState.personal;
  start = none;
  end = none;
  expired_at = none;
}
summarize (study start end expired_at) now = record {
  state =
      if is_there expired_at || leb end now
      then expired
      else if ltb now start
      then scheduled
      else active;
  start = some start;
  end = some end;
  expired_at = expired_at;
}

-- The boundaries are there, and in order.
abbrev bounded : Option Instant → Option Instant → Bool
bounded (some start) (some end) = ltb start end
bounded _ _ = false

abbrev follows : Option Instant → Option Instant → Bool
follows none end = true
follows (some at) none = false
follows (some at) (some end) = leb end at

-- `StudyHealthSummary::validate`.
unfoldable pub is_consistent : StudyHealthSummary → Bool
is_consistent s = elim s.state [
  | personal ↦ not (is_there s.start) && not (is_there s.end) && not (is_there s.expired_at)
  | scheduled ↦ bounded s.start s.end && not (is_there s.expired_at)
  | active ↦ bounded s.start s.end && not (is_there s.expired_at)
  | expired ↦ bounded s.start s.end && follows s.expired_at s.end
]

-- `health_summary`.
unfoldable pub study_health_summary :
    ConfigPlatform → StoreGeneration → Instant → ConfigAction StudyHealthSummary
study_health_summary os g now = do
  mode ← mode_at os g now false
  lift (
      require (is_consistent (summarize mode now))
        (configuration "study health state and boundaries are inconsistent"))
  pure (summarize mode now)
