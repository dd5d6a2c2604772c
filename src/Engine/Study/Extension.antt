-- ===== src/Engine/Study/Extension.antt =====
-- A study that is extended records again.
use open_chronicle_next.Base.{◌≡◌, ◌≤◌, ◌<◌, ◌∙◌, inl, inr, true, none, some, arith, Option-cases}
use open_chronicle_next.Base.Outcome.{ok, is_ok, Result-cases}
use open_chronicle_next.Domain.Time.{Instant}
use open_chronicle_next.Store.World.{StoreGeneration}
use open_chronicle_next.Engine.Config.{
  RecordingMode, ConfigPlatform, ConfigWorld, calm_config, study, judge_generation, ensure_current,
  enter, read_document, write_document,
}
use open_chronicle_next.Engine.Study.{
  StudyBoundary, boundary, check_mode, validate_boundary, read_mode_locked, write_mode_locked,
  extend, require_capture, entry_mode,
}
use open_chronicle_next.Engine.Study.Window.{config_mode, file_mode, require_capture_lem}
use open_chronicle_next.Engine.Study.Latch.{read_same}

read_bounded :
    (os : ConfigPlatform) (w : ConfigWorld) (m : RecordingMode) (b : StudyBoundary)
    → (read_mode_locked os w).0 ≡ ok m
    → boundary m ≡ some b
    → b.start < b.end
unfolding read_mode_locked read_document entry_mode check_mode validate_boundary
read_bounded os w m b h e = ground arith

written_mode :
    (os : ConfigPlatform) (m n : RecordingMode) (w : ConfigWorld)
    → (write_mode_locked os m w).0 ≡ ok tt
    → check_mode m ≡ ok n
    → (config_mode (write_mode_locked os m w).1 ≡ ok n)
      × ((write_mode_locked os m w).1.generation ≡ w.generation)
unfolding write_mode_locked write_document read_document file_mode entry_mode
written_mode os m n w h c = ground arith

unlatched_checks :
    (start end : Instant)
    → start < end
    → check_mode (study start end none) ≡ ok (study start end none)
unfolding check_mode validate_boundary
unlatched_checks start end h = ground arith

extended_mode :
    (os : ConfigPlatform) (g : StoreGeneration) (new_end now : Instant) (w : ConfigWorld)
    (b : StudyBoundary)
    → (extend os g new_end now w).0 ≡ ok b
    → (config_mode (extend os g new_end now w).1 ≡ ok (study b.start b.end none))
      × (judge_generation g (extend os g new_end now w).1.generation ≡ ok tt)
      × (b.end ≡ new_end)
      × (now < new_end)
unfolding extend enter ensure_current
extended_mode os g new_end now w b h =
    let same = read_same os w in
    elim (Result-cases (read_mode_locked os w).0) [
      | inr (e, failed) ↦ absurd (ground arith)
      | inl (m, read) ↦ elim (Option-cases (boundary m)) [
        | inl missing ↦ absurd (ground arith)
        | inr (prior, bounded) ↦
            let order = read_bounded os w m prior read bounded in
            let next = study prior.start new_end none in
            let puts = written_mode os next next w in
            let fits : prior.start < new_end = ground arith in
            let passes : check_mode next ≡ ok next = unlatched_checks prior.start new_end fits in
            (ground arith, ground arith, ground arith, ground arith)
      ]
    ]

-- After an `extend` that succeeded, an expired study's too, capture is admitted from the start of
-- the study to its new end, where the platform's calls succeed.
pub require_capture-extend :
    (os : ConfigPlatform) (g : StoreGeneration) (new_end now later : Instant) (w : ConfigWorld)
    (b : StudyBoundary)
    → (extend os g new_end now w).0 ≡ ok b
    → b.start ≤ later
    → later < new_end
    → is_ok (require_capture calm_config g later (extend os g new_end now w).1).0 ≡ true
require_capture-extend os g new_end now later w b h from to =
    let (held, current, end, live) = extended_mode os g new_end now w b h in
    let (admits, noticed) =
      require_capture_lem g (extend os g new_end now w).1 (study b.start b.end none) later current
        held in
    admits ∙ ground arith
