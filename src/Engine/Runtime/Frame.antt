-- ===== src/Engine/Runtime/Frame.antt =====
-- The calls of the runtime controller and the recording mode, which shares config.json with them.
use open_chronicle_next.Base.{ℕ, String, ◌≡◌, sym, ap, subst, Bool, List, arith}
use open_chronicle_next.Base.Outcome.{Result, ok, err}
use open_chronicle_next.Domain.Time.{Instant}
use open_chronicle_next.Domain.Grant.{CaptureCadence, ScreenshotRetention}
use open_chronicle_next.Store.World.{StoreGeneration}
use open_chronicle_next.Engine.Errors.{EngineError}
use open_chronicle_next.Engine.Config.{
  ConfigWorld, ConfigPlatform, present, PendingRuntimeGapReconciliation,
  HeartbeatAcknowledgementProof, HeartbeatAcknowledgementIntent,
}
use open_chronicle_next.Engine.Study.Latch.{is_latched}
use open_chronicle_next.Engine.Runtime.{
  Update, GapLibrary, RuntimeFaultInjector, StartupReconcileRequest, RuntimeGapReconcileRequest,
  update_document, set_recording_preference, set_cadence, set_screenshot_retention, checked,
}
use open_chronicle_next.Engine.Runtime.Validate.{
  validate_session_id, validate_startup_request, validate_runtime_gap_request,
  validate_pending_runtime_gap,
}
use open_chronicle_next.Engine.Runtime.Startup.{
  startup, prepare_startup, startup_commit, commit_startup,
}
use open_chronicle_next.Engine.Runtime.Gap.{
  gap_update, gap_commit, prepare_runtime_gap, commit_runtime_gap,
}
use open_chronicle_next.Engine.Runtime.Heartbeat.{
  heartbeat_update, resolution, check_canonical, validate_heartbeat_intent,
  prepare_heartbeat_intent, resolve_heartbeat_intent,
}
use open_chronicle_next.Engine.Runtime.Termination.{termination, prepare_termination}
use open_chronicle_next.Engine.Runtime.Modest.{
  Modest, Modest-Quiet, startup-Modest, startup_commit-Modest, gap_update-Modest, gap_commit-Modest,
  heartbeat_update-Modest, resolution-Modest, termination-Modest,
}

-- A call of the runtime controller, with what it leaves.
pub data RuntimeCall (w : ConfigWorld) : ConfigWorld → Type 0 where
  prefers :
      {w' : ConfigWorld} (os : ConfigPlatform) (g : StoreGeneration) (enabled : Bool)
      → (set_recording_preference os g enabled w).1 ≡ w'
      → RuntimeCall w w'
  paces :
      {w' : ConfigWorld} (os : ConfigPlatform) (g : StoreGeneration) (cadence : CaptureCadence)
      → (set_cadence os g cadence w).1 ≡ w'
      → RuntimeCall w w'
  retains :
      {w' : ConfigWorld} (os : ConfigPlatform) (g : StoreGeneration)
      (retention : ScreenshotRetention)
      → (set_screenshot_retention os g retention w).1 ≡ w'
      → RuntimeCall w w'
  promises :
      {w' : ConfigWorld} (os : ConfigPlatform) (g : StoreGeneration)
      (proofs : List HeartbeatAcknowledgementProof)
      → (prepare_heartbeat_intent os g proofs w).1 ≡ w'
      → RuntimeCall w w'
  acknowledges :
      {w' : ConfigWorld} (os : ConfigPlatform) (g : StoreGeneration)
      (intent : HeartbeatAcknowledgementIntent) (ids : List ℕ) (faults : RuntimeFaultInjector)
      → (resolve_heartbeat_intent os g intent ids faults w).1 ≡ w'
      → RuntimeCall w w'
  prepares_gap :
      {w' : ConfigWorld} (os : ConfigPlatform) (g : StoreGeneration) (lib : GapLibrary)
      (r : RuntimeGapReconcileRequest)
      → (prepare_runtime_gap os g lib r w).1 ≡ w'
      → RuntimeCall w w'
  commits_gap :
      {w' : ConfigWorld} (os : ConfigPlatform) (g : StoreGeneration) (lib : GapLibrary)
      (p : PendingRuntimeGapReconciliation) (ids : List ℕ) (faults : RuntimeFaultInjector)
      → (commit_runtime_gap os g lib p ids faults w).1 ≡ w'
      → RuntimeCall w w'
  prepares_start :
      {w' : ConfigWorld} (os : ConfigPlatform) (g : StoreGeneration) (lib : GapLibrary)
      (r : StartupReconcileRequest)
      → (prepare_startup os g lib r w).1 ≡ w'
      → RuntimeCall w w'
  commits_start :
      {w' : ConfigWorld} (os : ConfigPlatform) (g : StoreGeneration) (id : String) (ids : List ℕ)
      → (commit_startup os g id ids w).1 ≡ w'
      → RuntimeCall w w'
  terminates :
      {w' : ConfigWorld} (os : ConfigPlatform) (g : StoreGeneration) (id : String) (now : Instant)
      → (prepare_termination os g id now w).1 ≡ w'
      → RuntimeCall w w'

-- A call whose update is modest, behind a check.
guarded_latched :
    {A : Type 0} (check : Result EngineError (Unit {0})) (os : ConfigPlatform) (g : StoreGeneration)
    (update : Update A) (w w' : ConfigWorld)
    → Modest update
    → (checked check (update_document os g update) w).1 ≡ w'
    → is_latched w'.config ≡ is_latched w.config
guarded_latched (ok done) os g update w w' modest e =
    subst (λ v. is_latched v.config ≡ is_latched w.config) e (Modest-Quiet os g update w modest)
guarded_latched (err failure) os g update w w' modest e = ap (λ v. is_latched v.config) (sym e)

-- No call of the runtime controller, whether it succeeds or fails, sets or clears the mark of an
-- expired study.
pub RuntimeCall-latched :
    {w w' : ConfigWorld} → RuntimeCall w w' → is_latched w'.config ≡ is_latched w.config
unfolding set_recording_preference set_cadence set_screenshot_retention prepare_heartbeat_intent
    resolve_heartbeat_intent prepare_runtime_gap commit_runtime_gap prepare_startup commit_startup
    prepare_termination
RuntimeCall-latched {w} {w'} (prefers os g b e) =
    guarded_latched (ok tt) os g (λ d. ok (tt, record d { recording_preference = present b })) w w'
      (λ d d' a h. ground arith) e
RuntimeCall-latched {w} {w'} (paces os g c e) =
    guarded_latched (ok tt) os g (λ d. ok (tt, record d { capture_cadence = present c })) w w'
      (λ d d' a h. ground arith) e
RuntimeCall-latched {w} {w'} (retains os g c e) =
    guarded_latched (ok tt) os g (λ d. ok (tt, record d { screenshot_retention = present c })) w w'
      (λ d d' a h. ground arith) e
RuntimeCall-latched {w} {w'} (promises os g proofs e) =
    let i : HeartbeatAcknowledgementIntent = record { proofs = proofs } in
    guarded_latched (validate_heartbeat_intent i) os g (heartbeat_update i) w w'
      (heartbeat_update-Modest i) e
RuntimeCall-latched {w} {w'} (acknowledges os g i ids faults e) =
    guarded_latched (check_canonical i ids) os g (resolution faults i ids) w w'
      (resolution-Modest faults i ids) e
RuntimeCall-latched {w} {w'} (prepares_gap os g lib r e) =
    guarded_latched (validate_runtime_gap_request r) os g (gap_update lib r) w w'
      (gap_update-Modest lib r) e
RuntimeCall-latched {w} {w'} (commits_gap os g lib p ids faults e) =
    guarded_latched (validate_pending_runtime_gap p) os g (gap_commit lib faults p ids) w w'
      (gap_commit-Modest lib faults p ids) e
RuntimeCall-latched {w} {w'} (prepares_start os g lib r e) =
    guarded_latched (validate_startup_request r) os g (startup lib r) w w' (startup-Modest lib r) e
RuntimeCall-latched {w} {w'} (commits_start os g id ids e) =
    guarded_latched (ok tt) os g (startup_commit id ids) w w' (startup_commit-Modest id ids) e
RuntimeCall-latched {w} {w'} (terminates os g id now e) =
    guarded_latched (validate_session_id id) os g (termination id now) w w'
      (termination-Modest id now) e
