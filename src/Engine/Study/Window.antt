-- ===== src/Engine/Study/Window.antt =====
-- When capture is admitted by the recording mode.
use open_chronicle_next.Base.{
  ◌≡◌, inl, inr, refl, Bool, true, false, ◌&&◌, none, some, arith, ltb, leb, if◌then◌else◌,
  Bool-cases,
}
use open_chronicle_next.Base.Outcome.{Result, ok, err, is_ok}
use open_chronicle_next.Domain.Time.{Instant}
use open_chronicle_next.Store.World.{StoreGeneration}
use open_chronicle_next.Engine.Errors.{EngineError, configuration}
use open_chronicle_next.Engine.Config.{
  Entry, ConfigFile, absent, malformed, RecordingMode, ConfigWorld, calm_config, personal, study,
  missing, no_object, object, present, judge_generation, ensure_current, enter, read_document,
  write_document,
}
use open_chronicle_next.Engine.Study.{
  validate_boundary, check_mode, entry_mode, read_mode_locked, write_mode_locked, elapsed, latched,
  latch, mode_at, judge_mode, require_capture,
}

-- The recording mode that config.json holds.
unfoldable pub file_mode : ConfigFile → Result EngineError RecordingMode
unfolding entry_mode
file_mode missing = ok personal
file_mode no_object = err (configuration "config.json must contain a JSON object")
file_mode (object d) = entry_mode d.recording_mode

abbrev pub config_mode : ConfigWorld → Result EngineError RecordingMode
config_mode w = file_mode w.config

-- Personal recording always, and a study that has not been found expired from its start to its end.
abbrev pub in_window : RecordingMode → Instant → Bool
in_window personal now = true
in_window (study start end none) now = leb start now && ltb now end
in_window (study start end (some expired_at)) now = false

-- The mode on disk once it has been asked at an instant.
abbrev pub noticed : RecordingMode → Instant → RecordingMode
noticed m now = if elapsed m now then latched m now else m

-- A mode that has been read passes its check again when its expiry is latched.
check_mode-latched :
    (m n : RecordingMode) (now : Instant)
    → check_mode n ≡ ok m
    → (check_mode m ≡ ok m) × (check_mode (noticed m now) ≡ ok (noticed m now))
unfolding check_mode validate_boundary
check_mode-latched m personal now h = ground arith
check_mode-latched m (study start end none) now h = ground arith
check_mode-latched m (study start end (some x)) now h = ground arith

-- What a file holds as its mode can be read again, and so can what is noticed of it.
entry_mode_valid :
    (e : Entry RecordingMode) (m : RecordingMode) (now : Instant)
    → entry_mode e ≡ ok m
    → (check_mode m ≡ ok m) × (check_mode (noticed m now) ≡ ok (noticed m now))
unfolding entry_mode
entry_mode_valid absent m now h =
    let plain = check_mode-latched personal personal now refl in ground arith
entry_mode_valid malformed m now h = absurd (ground arith)
entry_mode_valid (present n) m now h = check_mode-latched m n now h

file_mode_valid :
    (f : ConfigFile) (m : RecordingMode) (now : Instant)
    → file_mode f ≡ ok m
    → (check_mode m ≡ ok m) × (check_mode (noticed m now) ≡ ok (noticed m now))
unfolding file_mode
file_mode_valid missing m now h = entry_mode_valid absent m now h
file_mode_valid no_object m now h = absurd (ground arith)
file_mode_valid (object d) m now h = entry_mode_valid d.recording_mode m now h

-- A write by calm calls puts the mode into the document that was there.
write_mode_calm :
    (m n k : RecordingMode) (w : ConfigWorld)
    → config_mode w ≡ ok m
    → check_mode n ≡ ok k
    → ((write_mode_locked calm_config n w).0 ≡ ok tt)
      × (config_mode (write_mode_locked calm_config n w).1 ≡ ok k)
unfolding write_mode_locked write_document read_document file_mode entry_mode
write_mode_calm m n k w h c = ground arith

pub latch_calm :
    (m : RecordingMode) (now : Instant) (w : ConfigWorld)
    → config_mode w ≡ ok m
    → ((latch calm_config m now true w).0 ≡ ok (noticed m now))
      × (config_mode (latch calm_config m now true w).1 ≡ ok (noticed m now))
unfolding latch
latch_calm m now w h =
    let (same, valid) = file_mode_valid w.config m now h in
    let written = write_mode_calm m (latched m now) (latched m now) w h in
    elim (Bool-cases (elapsed m now)) [
      | inl over ↦ ground (arith, written, valid, over)
      | inr running ↦ ground (arith, running, h)
    ]

pub mode_read : (w : ConfigWorld) → read_mode_locked calm_config w ≡ (config_mode w, w)
unfolding read_mode_locked read_document file_mode
mode_read w = ground arith

-- Where the calls of the platform succeed and the generation is current, capture is admitted at an
-- instant exactly where the recording mode on disk allows it. A study whose end has come is then
-- marked as expired on disk; otherwise the mode stays as it is.
pub require_capture_lem :
    (g : StoreGeneration) (w : ConfigWorld) (m : RecordingMode) (now : Instant)
    → judge_generation g w.generation ≡ ok tt
    → config_mode w ≡ ok m
    → (is_ok (require_capture calm_config g now w).0 ≡ in_window m now)
      × (config_mode (require_capture calm_config g now w).1 ≡ ok (noticed m now))
unfolding require_capture mode_at enter ensure_current judge_mode
require_capture_lem g w m now current held =
    let read = mode_read w in
    let (result, written) = latch_calm m now w held in
    elim m [
      | personal ↦ ground arith
      | study start end none ↦ ground arith
      | study start end (some x) ↦ ground arith
    ]
