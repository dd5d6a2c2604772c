-- ===== src/Engine/Study/Latch.antt =====
-- A study that has been found expired stays expired until the mode is set again, whatever the clock
-- says later.
use open_chronicle_next.Base.{
  ◌≡◌, ◌≢◌, inl, inr, refl, subst, ◌∙◌, Bool, true, false, none, some, arith,
}
use open_chronicle_next.Base.Outcome.{ok, err, Result-cases}
use open_chronicle_next.Domain.Time.{Instant}
use open_chronicle_next.Store.World.{StoreGeneration}
use open_chronicle_next.Engine.Errors.{study_expired}
use open_chronicle_next.Engine.Config.{
  Entry, ConfigFile, RecordingMode, ConfigPlatform, ConfigWorld, personal, study, missing,
  no_object, object, absent, malformed, present, ensure_current, enter, read_document,
  write_document,
}
use open_chronicle_next.Engine.Study.{
  validate_boundary, check_mode, entry_mode, read_mode_locked, write_mode_locked, latched, latch,
  mode_at, judge_mode, require_capture,
}
use open_chronicle_next.Engine.Study.Summary.{study_health_summary}

-- The mode on disk is a study whose expiry is latched.
abbrev mode_is_latched : Entry RecordingMode → Bool
mode_is_latched absent = false
mode_is_latched malformed = false
mode_is_latched (present personal) = false
mode_is_latched (present (study start end none)) = false
mode_is_latched (present (study start end (some x))) = true

unfoldable pub is_latched : ConfigFile → Bool
is_latched missing = false
is_latched no_object = false
is_latched (object d) = mode_is_latched d.recording_mode

-- Calls that do not set the recording mode: questions about it, and those that leave it alone.
pub data Quiet (w : ConfigWorld) : ConfigWorld → Type 0 where
  asks :
      {w' : ConfigWorld} (os : ConfigPlatform) (g : StoreGeneration) (now : Instant)
      → (require_capture os g now w).1 ≡ w'
      → Quiet w w'
  reports :
      {w' : ConfigWorld} (os : ConfigPlatform) (g : StoreGeneration) (now : Instant)
      → (study_health_summary os g now w).1 ≡ w'
      → Quiet w w'
  elsewhere : {w' : ConfigWorld} → is_latched w'.config ≡ is_latched w.config → Quiet w w'

pub data Quietly (w : ConfigWorld) : ConfigWorld → Type 0 where
  here : Quietly w w
  next : {u v : ConfigWorld} → Quietly w u → Quiet u v → Quietly w v

-- Reading changes nothing.
pub read_same : (os : ConfigPlatform) (w : ConfigWorld) → (read_mode_locked os w).1 ≡ w
unfolding read_mode_locked read_document
read_same os w = ground arith

-- What is read of a latched mode is a latched study.
latched_read :
    (os : ConfigPlatform) (w : ConfigWorld) (m : RecordingMode)
    → is_latched w.config ≡ true
    → (read_mode_locked os w).0 ≡ ok m
    → mode_is_latched (present m) ≡ true
unfolding read_mode_locked read_document is_latched entry_mode check_mode
latched_read os w m h r = ground arith

latched_kept :
    (os : ConfigPlatform) (g : StoreGeneration) (now : Instant) (b : Bool) (w : ConfigWorld)
    → is_latched w.config ≡ true
    → ((mode_at os g now b w).1 ≡ w)
      × ((m : RecordingMode) → (mode_at os g now b w).0 ≡ ok m → mode_is_latched (present m) ≡ true)
unfolding mode_at enter ensure_current latch
latched_kept os g now b w h =
    let same = read_same os w in
    elim (Result-cases (read_mode_locked os w).0) [
      | inr (e, failed) ↦ (ground arith, λ m r. ground arith)
      | inl (m, read) ↦ let is = latched_read os w m h read in (ground arith, λ n r. ground arith)
    ]

-- A write that succeeds leaves its mode on disk.
written :
    (os : ConfigPlatform) (m : RecordingMode) (w : ConfigWorld)
    → (write_mode_locked os m w).0 ≡ ok tt
    → is_latched (write_mode_locked os m w).1.config ≡ mode_is_latched (present m)
unfolding write_mode_locked write_document read_document is_latched
written os m w h = ground arith

-- A latched study that is read stands on disk.
read_latched :
    (os : ConfigPlatform) (w : ConfigWorld) (m : RecordingMode)
    → (read_mode_locked os w).0 ≡ ok m
    → mode_is_latched (present m) ≡ true
    → is_latched w.config ≡ true
unfolding read_mode_locked read_document is_latched entry_mode check_mode
read_latched os w m r h = ground arith

mode_at_latched :
    (os : ConfigPlatform) (g : StoreGeneration) (now : Instant) (b : Bool) (w : ConfigWorld)
    (m : RecordingMode)
    → (mode_at os g now b w).0 ≡ ok m
    → mode_is_latched (present m) ≡ true
    → is_latched (mode_at os g now b w).1.config ≡ true
unfolding mode_at enter ensure_current latch
mode_at_latched os g now b w m h l =
    let same = read_same os w in
    elim (Result-cases (read_mode_locked os w).0) [
      | inr (e, failed) ↦ absurd (ground arith)
      | inl (n, read) ↦
          let stood = read_latched os w n read in
          let puts = written os (latched n now) w in ground arith
    ]

judged_expired :
    (os : ConfigPlatform) (g : StoreGeneration) (now : Instant) (m : RecordingMode)
    → judge_mode os g m now ≡ err study_expired
    → mode_is_latched (present m) ≡ true
unfolding judge_mode
judged_expired os g now personal h = absurd (ground arith)
judged_expired os g now (study start end none) h = absurd (ground arith)
judged_expired os g now (study start end (some x)) h = refl

judged_latched :
    (os : ConfigPlatform) (g : StoreGeneration) (now : Instant) (m : RecordingMode)
    → mode_is_latched (present m) ≡ true
    → judge_mode os g m now ≡ err study_expired
unfolding judge_mode
judged_latched os g now personal h = absurd (ground arith)
judged_latched os g now (study start end none) h = absurd (ground arith)
judged_latched os g now (study start end (some x)) h = refl

-- No call before the judgement fails with `study_expired`.
mode_at_error :
    (os : ConfigPlatform) (g : StoreGeneration) (now : Instant) (b : Bool) (w : ConfigWorld)
    → (mode_at os g now b w).0 ≢ err study_expired
unfolding mode_at enter ensure_current latch read_mode_locked read_document write_mode_locked
    write_document entry_mode check_mode validate_boundary
mode_at_error os g now b w h = ground arith

expired_is_latched :
    (os : ConfigPlatform) (g : StoreGeneration) (now : Instant) (w : ConfigWorld)
    → (require_capture os g now w).0 ≡ err study_expired
    → is_latched (require_capture os g now w).1.config ≡ true
unfolding require_capture
expired_is_latched os g now w h = elim (Result-cases (mode_at os g now true w).0) [
  | inr (e, failed) ↦ let other = mode_at_error os g now true w in absurd (ground arith)
  | inl (m, found) ↦
      let expired = judged_expired os g now m in
      let stands = mode_at_latched os g now true w m found in ground arith
]

Quiet-latched :
    {w w' : ConfigWorld} → Quiet w w' → is_latched w.config ≡ true → is_latched w'.config ≡ true
unfolding require_capture study_health_summary
Quiet-latched {w} (asks os g now e) h =
    let (same, m) = latched_kept os g now true w h in
    subst (λ v. is_latched v.config ≡ true) e (ground arith)
Quiet-latched {w} (reports os g now e) h =
    let (same, m) = latched_kept os g now false w h in
    subst (λ v. is_latched v.config ≡ true) e (ground arith)
Quiet-latched (elsewhere e) h = e ∙ h

Quietly-latched :
    {w w' : ConfigWorld} → Quietly w w' → is_latched w.config ≡ true → is_latched w'.config ≡ true
Quietly-latched here h = h
Quietly-latched (next r s) h = Quiet-latched s (Quietly-latched r h)

-- Once capture has been refused because the study has expired, it is not admitted again before the
-- mode is set, at no instant, an earlier one by a clock that was put back included.
pub require_capture-final :
    (os : ConfigPlatform) (g : StoreGeneration) (now : Instant) (w : ConfigWorld) {w' : ConfigWorld}
    → (require_capture os g now w).0 ≡ err study_expired
    → Quietly (require_capture os g now w).1 w'
    → (os' : ConfigPlatform) (g' : StoreGeneration) (other : Instant)
    → (require_capture os' g' other w').0 ≢ ok tt
unfolding require_capture
require_capture-final os g now w {w'} h r os' g' other admitted =
    let stands = Quietly-latched r (expired_is_latched os g now w h) in
    let (same, is) = latched_kept os' g' other true w' stands in
    elim (Result-cases (mode_at os' g' other true w').0) [
      | inr (e, failed) ↦ ground arith
      | inl (m, found) ↦ let closed = judged_latched os' g' other m (is m found) in ground arith
    ]
