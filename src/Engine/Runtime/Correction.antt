-- ===== src/Engine/Runtime/Correction.antt =====
-- What the reconciliation of a runtime gap does to the session, and its repetition.
use open_chronicle_next.Base.{
  ℕ, String, ◌≡◌, refl, sym, subst, ◌∙◌, inl, inr, true, false, ◌||◌, not, none, some, List, [],
  ◌∷◌, str_eq, arith, Bool-cases, eq_iff,
}
use open_chronicle_next.Base.Outcome.{ok, is_ok, ◌>>=◌, refuse, >>-eq-ok, Result-cases}
use open_chronicle_next.Store.World.{StoreGeneration}
use open_chronicle_next.Engine.Errors.{configuration}
use open_chronicle_next.Engine.Config.{
  absent, present, RuntimeSession, ConfigDocument, ConfigWorld, ConfigPlatform, calm_config,
  PendingRuntimeGapReconciliation, get,
}
use open_chronicle_next.Engine.Runtime.{
  GapLibrary, RuntimeFaultInjector, RuntimeGapReconcileRequest, is_open, current_session,
}
use open_chronicle_next.Engine.Runtime.Validate.{
  validate_runtime_gap_request, validate_pending_runtime_gap, runtime_gap_request_matches_pending,
  runtime_gap_request_matches_last, runtime_gap_pending_matches,
}
use open_chronicle_next.Engine.Runtime.Startup.{same_ids}
use open_chronicle_next.Engine.Runtime.Gap.{
  no_gap, judge_gap, begin_gap, gap_step, gap_update, reconciled_session, last_of, close_gap,
  check_completion, finish_gap, gap_commit, prepare_runtime_gap, commit_runtime_gap,
}
use open_chronicle_next.Engine.Runtime.Document.{checked_ok, checked_again}

-- What a commit of an intent has found and leaves.
abbrev pub Closed :
    List ℕ → PendingRuntimeGapReconciliation → RuntimeSession → ConfigDocument → Type 0
Closed ids p s d =
    (str_eq s.session_id p.session_id ≡ true)
    × (is_open s ≡ true)
    × (d.lifecycle_checkpoint ≡ present (reconciled_session p s))
    × (d.last_runtime_gap_reconciliation ≡ present (last_of p ids))
    × (d.pending_runtime_gap_reconciliation ≡ absent)

closed :
    (faults : RuntimeFaultInjector) (ids : List ℕ) (p : PendingRuntimeGapReconciliation)
    (s : RuntimeSession) (d d' : ConfigDocument)
    → close_gap faults ids p (some s) d ≡ ok (tt, d')
    → Closed ids p s d'
unfolding close_gap
closed faults ids p s d d' h = elim (Result-cases (get d.last_runtime_gap_reconciliation)) [
  | inr (e, failed) ↦ absurd (ground (arith, h, failed))
  | inl (last, kept) ↦ (
    ground (arith, h, kept),
    ground (arith, h, kept),
    ground (arith, h, kept),
    ground (arith, h, kept),
    ground (arith, h, kept),
  )
]

closes_none :
    (faults : RuntimeFaultInjector) (ids : List ℕ) (p : PendingRuntimeGapReconciliation)
    (d : ConfigDocument)
    → is_ok (close_gap faults ids p none d) ≡ false
unfolding close_gap
closes_none faults ids p d = refl

completes :
    (lib : GapLibrary) (expected : PendingRuntimeGapReconciliation) (ids : List ℕ)
    (p : PendingRuntimeGapReconciliation)
    → check_completion lib expected ids p ≡ ok tt
    → runtime_gap_pending_matches lib p expected ≡ true
unfolding check_completion
completes lib expected ids p h =
    let (valid, rest) =
      >>-eq-ok (validate_pending_runtime_gap p)
        (refuse
          (not (runtime_gap_pending_matches lib p expected)
            || not (same_ids ids (p.gap_event.event_id ∷ [])))
          (configuration "runtime gap completion does not match its durable intent"))
        h in
    elim (Bool-cases (runtime_gap_pending_matches lib p expected)) [
      | inl fits ↦ fits
      | inr other ↦ absurd (ground (arith, rest, other))
    ]

str_trans : (a b c : String) → str_eq a b ≡ true → str_eq c b ≡ true → str_eq c a ≡ true
str_trans a b c h k = let back = sym ((eq_iff a b).0 h) in (eq_iff c a).1 ((eq_iff c b).0 k ∙ back)

-- A request that matches the completed intent matches the one on disk.
matches_trans :
    (lib : GapLibrary) (r : RuntimeGapReconcileRequest) (p q : PendingRuntimeGapReconciliation)
    → runtime_gap_request_matches_pending r q ≡ true
    → runtime_gap_pending_matches lib p q ≡ true
    → runtime_gap_request_matches_pending r p ≡ true
matches_trans lib r p q h k =
    let zones = str_trans p.display_timezone q.display_timezone r.display_timezone in
    ground (arith, h, k, zones)

finished :
    (lib : GapLibrary) (faults : RuntimeFaultInjector) (expected : PendingRuntimeGapReconciliation)
    (ids : List ℕ) (d d' : ConfigDocument)
    → gap_commit lib faults expected ids d ≡ ok (tt, d')
    → (p : PendingRuntimeGapReconciliation) × (s : RuntimeSession)
      × (d.pending_runtime_gap_reconciliation ≡ present p)
      × (d.lifecycle_checkpoint ≡ present s)
      × (runtime_gap_pending_matches lib p expected ≡ true)
      × Closed ids p s d'
unfolding gap_commit finish_gap
finished lib faults expected ids d d' h =
    elim (Result-cases (get d.pending_runtime_gap_reconciliation)) [
      | inr (e, failed) ↦ absurd (ground (arith, h, failed))
      | inl (none, found) ↦ absurd (ground (arith, h, found))
      | inl (some p, found) ↦
          let (checks, rest) =
            >>-eq-ok (check_completion lib expected ids p)
              (current_session d >>= λ s. close_gap faults ids p s d)
              (subst (λ x. (x >>= λ k. finish_gap lib faults expected ids k d) ≡ ok (tt, d')) found
                h) in
          elim (Result-cases (current_session d)) [
            | inr (e, failed) ↦ absurd (ground (arith, rest, failed))
            | inl (none, running) ↦ absurd (
                ground (
                  arith,
                  closes_none faults ids p d,
                  subst (λ x. (x >>= λ k. close_gap faults ids p k d) ≡ ok (tt, d')) running rest,
                ))
            | inl (some s, running) ↦ (
              p,
              s,
              ground (arith, found),
              ground (arith, running),
              completes lib expected ids p checks,
              closed faults ids p s d d'
                  (subst (λ x. (x >>= λ k. close_gap faults ids p k d) ≡ ok (tt, d')) running rest),
            )
          ]
    ]

-- A request that the last commit has reconciled gives no event again, and its identifiers.
update_again :
    (lib : GapLibrary) (r : RuntimeGapReconcileRequest) (ids : List ℕ)
    (p : PendingRuntimeGapReconciliation) (s : RuntimeSession) (d : ConfigDocument)
    → Closed ids p s d
    → runtime_gap_request_matches_pending r p ≡ true
    → gap_update lib r d ≡ ok (no_gap ids, d)
unfolding gap_update gap_step begin_gap judge_gap
update_again lib r ids p s d (mine, open_, session, last, gone) fits =
    let repeated : runtime_gap_request_matches_last r s.session_id (last_of p ids) ≡ true =
      ground (arith, mine, fits) in
    ground (arith, open_, session, last, gone, repeated)

-- A request that is repeated after the commit of its intent gives no event again, and the
-- identifiers that were committed, where the platform's calls succeed.
pub prepare_runtime_gap-commit_runtime_gap :
    (os : ConfigPlatform) (g : StoreGeneration) (lib : GapLibrary) (r : RuntimeGapReconcileRequest)
    (expected : PendingRuntimeGapReconciliation) (ids : List ℕ) (faults : RuntimeFaultInjector)
    (w : ConfigWorld)
    → (commit_runtime_gap os g lib expected ids faults w).0 ≡ ok tt
    → runtime_gap_request_matches_pending r expected ≡ true
    → validate_runtime_gap_request r ≡ ok tt
    → (prepare_runtime_gap calm_config g lib r
        (commit_runtime_gap os g lib expected ids faults w).1).0
      ≡ ok (no_gap ids)
unfolding prepare_runtime_gap commit_runtime_gap
prepare_runtime_gap-commit_runtime_gap os g lib r expected ids faults w h fits passes =
    let (valid, (d, d', read, changed, written)) =
      checked_ok (validate_pending_runtime_gap expected) os g (gap_commit lib faults expected ids) w
        tt h in
    let (p, s, held, session, matched, left) = finished lib faults expected ids d d' changed in
    checked_again (validate_pending_runtime_gap expected) (validate_runtime_gap_request r) os g
      (gap_commit lib faults expected ids) (gap_update lib r) w d' d' tt (no_gap ids) h written
      passes (update_again lib r ids p s d' left (matches_trans lib r p expected fits matched))
