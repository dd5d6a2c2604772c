-- ===== src/Engine/Runtime/Retry.antt =====
-- Starts that are repeated.
use open_chronicle_next.Base.{
  ℕ, String, ◌≡◌, sym, ap, subst, ◌∙◌, inl, inr, true, none, some, List, [], str_eq, arith,
  Bool-cases, and_true,
}
use open_chronicle_next.Base.Outcome.{ok, Result-cases}
use open_chronicle_next.Store.World.{StoreGeneration}
use open_chronicle_next.Engine.Config.{
  absent, present, object, ConfigDocument, ConfigWorld, ConfigPlatform, calm_config,
  PendingStartupReconciliation, get,
}
use open_chronicle_next.Engine.Runtime.{
  GapLibrary, StartupReconcileRequest, PreparedStartupReconciliation,
}
use open_chronicle_next.Engine.Runtime.Validate.{validate_startup_request}
use open_chronicle_next.Engine.Runtime.Startup.{
  event_ids, resume_intent, begin_session, startup_step, startup, prepare_startup, same_ids,
  matches_intent, finish_intent, startup_commit, commit_startup,
}
use open_chronicle_next.Engine.Runtime.Document.{update_ok, checked_ok, checked_again}
use open_chronicle_next.Engine.Runtime.Restart.{Intended, startup_valid, str_same, stored}

-- Whatever stood in config.json, the intent that a start leaves there is one of the session that
-- starts. Its gaps pass the check of a stored intent: each is a valid gap event, and each begins
-- where the one before it ends, or is a correction of the clock that ends there. The caller gets
-- their events and identifiers.
pub prepare_startup_lem :
    (os : ConfigPlatform) (g : StoreGeneration) (lib : GapLibrary) (r : StartupReconcileRequest)
    (w : ConfigWorld) (d' : ConfigDocument) (a : PreparedStartupReconciliation)
    (p : PendingStartupReconciliation)
    → (prepare_startup os g lib r w).0 ≡ ok a
    → (prepare_startup os g lib r w).1.config ≡ object d'
    → d'.pending_startup_reconciliation ≡ present p
    → Intended r a p
unfolding prepare_startup
prepare_startup_lem os g lib r w d' a p h left kept =
    let (valid, (d, e, read, changed, written)) =
      checked_ok (validate_startup_request r) os g (startup lib r) w a h in
    let same : e ≡ d' = object_injective e d' (sym (ap (λ v. v.config) written) ∙ left) in
    startup_valid lib r d d' a p (subst (λ x. startup lib r d ≡ ok (a, x)) same changed) kept
  where
    object_injective : (x y : ConfigDocument) → object x ≡ object y → x ≡ y
    object_injective x y e = cc

startup_again :
    (lib : GapLibrary) (r r' : StartupReconcileRequest) (d : ConfigDocument)
    (a : PreparedStartupReconciliation) (p : PendingStartupReconciliation)
    → Intended r a p
    → d.pending_startup_reconciliation ≡ present p
    → r.session_id ≡ r'.session_id
    → startup lib r' d ≡ ok (a, d)
unfolding startup startup_step resume_intent
startup_again lib r r' d a p (valid, mine, out) held same =
    let matches = ap (λ x. str_eq p.new_session.session_id x) (sym same) ∙ mine in
    ground (arith, valid, matches, out, held)

-- A start that is repeated while its intent is unresolved gives the same events and identifiers,
-- whatever its instant is, where the platform's calls succeed.
pub prepare_startup-prepare_startup :
    (os : ConfigPlatform) (g : StoreGeneration) (lib : GapLibrary) (r r' : StartupReconcileRequest)
    (w : ConfigWorld) (d' : ConfigDocument) (a : PreparedStartupReconciliation)
    (p : PendingStartupReconciliation)
    → (prepare_startup os g lib r w).0 ≡ ok a
    → (prepare_startup os g lib r w).1 ≡ record w { config = object d' }
    → d'.pending_startup_reconciliation ≡ present p
    → r.session_id ≡ r'.session_id
    → validate_startup_request r' ≡ ok tt
    → (prepare_startup calm_config g lib r' (prepare_startup os g lib r w).1).0 ≡ ok a
unfolding prepare_startup
prepare_startup-prepare_startup os g lib r r' w d' a p h left kept same passes =
    let intent = prepare_startup_lem os g lib r w d' a p h (ap (λ v. v.config) left) kept in
    checked_again (validate_startup_request r) (validate_startup_request r') os g (startup lib r)
      (startup lib r') w d' d' a a h left passes (startup_again lib r r' d' a p intent kept same)

-- The document that a commit leaves.
committed :
    (id : String) (ids : List ℕ) (d d' : ConfigDocument)
    → startup_commit id ids d ≡ ok (tt, d')
    → (p : PendingStartupReconciliation) × (d.pending_startup_reconciliation ≡ present p)
      × (matches_intent id ids p ≡ true)
      × (d'.lifecycle_checkpoint ≡ present p.new_session)
      × (d'.pending_startup_reconciliation ≡ absent)
      × (d'.last_startup_reconciliation
          ≡ present (record { new_session_id = id; gap_event_ids = ids }))
unfolding startup_commit finish_intent
committed id ids d d' h = elim (Result-cases (get d.pending_startup_reconciliation)) [
  | inr (e, failed) ↦ absurd (ground (arith, h, failed))
  | inl (none, found) ↦ absurd (ground (arith, h, found))
  | inl (some p, found) ↦ elim (Bool-cases (matches_intent id ids p)) [
    | inr other ↦ absurd (ground (arith, h, found, other))
    | inl fits ↦ (
      p,
      stored d p found,
      fits,
      ground (arith, h, found, fits),
      ground (arith, h, found, fits),
      ground (arith, h, found, fits),
    )
  ]
]

-- A start that is repeated after its commit finds its session: it gives no event again, and the
-- identifiers that were committed, whatever its instant is, where the platform's calls succeed.
pub prepare_startup-commit_startup :
    (os : ConfigPlatform) (g : StoreGeneration) (lib : GapLibrary) (r : StartupReconcileRequest)
    (ids : List ℕ) (w : ConfigWorld)
    → (commit_startup os g r.session_id ids w).0 ≡ ok tt
    → validate_startup_request r ≡ ok tt
    → (prepare_startup calm_config g lib r (commit_startup os g r.session_id ids w).1).0
      ≡ ok (record { gap_events = []; gap_event_ids = ids })
unfolding prepare_startup commit_startup startup startup_step begin_session
prepare_startup-commit_startup os g lib r ids w h passes =
    let (d, d', read, changed, written) = update_ok os g (startup_commit r.session_id ids) w tt h in
    let (p, held, fits, session, gone, last) = committed r.session_id ids d d' changed in
    let (mine, listed) =
      and_true (str_eq p.new_session.session_id r.session_id)
        (same_ids (event_ids p.gap_events) ids) fits in
    checked_again (ok tt) (validate_startup_request r) os g (startup_commit r.session_id ids)
      (startup lib r) w d' d' tt (record { gap_events = []; gap_event_ids = ids }) h written passes
      (ground (arith, mine, session, gone, last, str_same r.session_id))
