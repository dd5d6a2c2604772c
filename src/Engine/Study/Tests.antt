-- ===== src/Engine/Study/Tests.antt =====
-- The theorems on study windows at concrete studies.
use open_chronicle_next.Base.{◌≡◌, ◌≢◌, refl, true, none, some, arith}
use open_chronicle_next.Base.Outcome.{ok, is_ok}
use open_chronicle_next.Store.World.{StoreGeneration}
use open_chronicle_next.Engine.Config.{
  ConfigWorld, study, object, present, calm_config, empty_document, judge_generation,
  ensure_current, enter, read_document, write_document,
}
use open_chronicle_next.Engine.Study.{
  validate_boundary, check_mode, entry_mode, read_mode_locked, write_mode_locked, latch, mode_at,
  judge_mode, require_capture, extend,
}
use open_chronicle_next.Engine.Study.Window.{
  file_mode, config_mode, in_window, noticed, require_capture_lem,
}
use open_chronicle_next.Engine.Study.Latch.{here, require_capture-final}
use open_chronicle_next.Engine.Study.Extension.{require_capture-extend}

abbrev first_generation : StoreGeneration
first_generation = record { schema_version = 1; generation = 1; epoch_id = 0 }

-- A study from 10 to 20.
abbrev running : ConfigWorld
running = record {
  generation = some first_generation;
  config = object (record empty_document { recording_mode = present (study 10 20 none) });
}

require_capture_lem_example :
    (is_ok (require_capture calm_config first_generation 20 running).0
      ≡ in_window (study 10 20 none) 20)
    × (config_mode (require_capture calm_config first_generation 20 running).1
        ≡ ok (noticed (study 10 20 none) 20))
unfolding file_mode entry_mode check_mode validate_boundary judge_generation
require_capture_lem_example =
    require_capture_lem first_generation running (study 10 20 none) 20 refl refl

-- A later call, with a clock that was put back.
require_capture-final_example :
    (require_capture calm_config first_generation 15
      (require_capture calm_config first_generation 20 running).1).0
    ≢ ok tt
unfolding require_capture mode_at enter ensure_current judge_generation read_mode_locked
    read_document entry_mode check_mode validate_boundary latch write_mode_locked write_document
    judge_mode
require_capture-final_example =
    require_capture-final calm_config first_generation 20 running refl here calm_config
      first_generation 15

require_capture-extend_example :
    is_ok
      (require_capture calm_config first_generation 25
        (extend calm_config first_generation 30 22 running).1).0
    ≡ true
unfolding extend enter ensure_current judge_generation read_mode_locked read_document entry_mode
    check_mode validate_boundary write_mode_locked write_document
require_capture-extend_example =
    require_capture-extend calm_config first_generation 30 22 25 running
      (record { start = 10; end = 30 }) refl (omega arith) (omega arith)
