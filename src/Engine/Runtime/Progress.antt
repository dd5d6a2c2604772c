-- ===== src/Engine/Runtime/Progress.antt =====
-- What is prepared can be committed.
use open_chronicle_next.Base.{
  ℕ, ◌≡◌, sym, ap, subst, ◌∙◌, inl, inr, Bool, true, false, ◌&&◌, ◌||◌, not, Option, some, List, [],
  ◌∷◌, str_eq, ◌==◌, arith,
}
use open_chronicle_next.Base.Outcome.{ok, refuse-ok, >>-refuse, ok_injective, Result-cases}
use open_chronicle_next.Store.World.{StoreGeneration}
use open_chronicle_next.Engine.Errors.{configuration}
use open_chronicle_next.Engine.Config.{
  absent, present, RuntimeSession, ConfigDocument, ConfigWorld, ConfigPlatform, calm_config,
  PendingRuntimeGapReconciliation, LastRuntimeGapReconciliation, get,
}
use open_chronicle_next.Engine.Runtime.{
  GapLibrary, RuntimeFaultInjector, RuntimeGapReconcileRequest, PreparedRuntimeGapReconciliation,
  is_open,
}
use open_chronicle_next.Engine.Runtime.Validate.{
  is_bad_timezone, validate_session_id, validate_runtime_gap_request, validate_pending_runtime_gap,
  runtime_gap_pending_matches,
}
use open_chronicle_next.Engine.Runtime.Startup.{same_ids}
use open_chronicle_next.Engine.Runtime.Gap.{
  reconciled_session, last_of, gap_update, close_gap, check_completion, finish_gap, gap_commit,
  prepare_runtime_gap, commit_runtime_gap,
}
use open_chronicle_next.Engine.Runtime.Document.{file_document, checked_ok, checked_again}
use open_chronicle_next.Engine.Runtime.Modest.{gap_update-Spares}
use open_chronicle_next.Engine.Runtime.Restart.{str_same}
use open_chronicle_next.Engine.Runtime.Awaited.{is_readable, Awaits, prepared_gap}

matches_self :
    (lib : GapLibrary) (p : PendingRuntimeGapReconciliation)
    → lib.same_event p.gap_event p.gap_event ≡ true
    → runtime_gap_pending_matches lib p p ≡ true
matches_self lib p same =
    let named = str_same p.session_id in
    let zoned = str_same p.display_timezone in ground (arith, same, named, zoned)

refusal_free : (b : Bool) (n : ℕ) → b ≡ true → (not b || not (n == n && true)) ≡ false
refusal_free true n h = ground arith
refusal_free false n h = absurd (ground arith)

completion_passes :
    (lib : GapLibrary) (p : PendingRuntimeGapReconciliation)
    → validate_pending_runtime_gap p ≡ ok tt
    → lib.same_event p.gap_event p.gap_event ≡ true
    → check_completion lib p (p.gap_event.event_id ∷ []) p ≡ ok tt
unfolding check_completion same_ids
completion_passes lib p valid same =
    let fits = matches_self lib p same in
    >>-refuse (validate_pending_runtime_gap p)
      (not (runtime_gap_pending_matches lib p p)
        || not (p.gap_event.event_id == p.gap_event.event_id && true))
      (configuration "runtime gap completion does not match its durable intent") valid
      (refusal_free (runtime_gap_pending_matches lib p p) p.gap_event.event_id fits)

closes :
    (faults : RuntimeFaultInjector) (ids : List ℕ) (p : PendingRuntimeGapReconciliation)
    (s : RuntimeSession) (d : ConfigDocument) (last : Option LastRuntimeGapReconciliation)
    → get d.last_runtime_gap_reconciliation ≡ ok last
    → is_open s ≡ true
    → str_eq s.session_id p.session_id ≡ true
    → faults.fail_before_checkpoint_write ≡ false
    → close_gap faults ids p (some s) d
      ≡ ok (
        tt,
        record d {
          lifecycle_checkpoint = present (reconciled_session p s);
          last_runtime_gap_reconciliation = present (last_of p ids);
          pending_runtime_gap_reconciliation = absent;
        },
      )
unfolding close_gap
closes faults ids p s d last found live mine calm = ground (arith, found, live, mine, calm)

update_commits :
    (lib : GapLibrary) (faults : RuntimeFaultInjector) (a : PreparedRuntimeGapReconciliation)
    (p : PendingRuntimeGapReconciliation) (s : RuntimeSession) (d : ConfigDocument)
    → Awaits a d p
    → d.lifecycle_checkpoint ≡ present s
    → is_open s ≡ true
    → str_eq s.session_id p.session_id ≡ true
    → is_readable d.last_runtime_gap_reconciliation ≡ true
    → lib.same_event p.gap_event p.gap_event ≡ true
    → faults.fail_before_checkpoint_write ≡ false
    → (d' : ConfigDocument) × (gap_commit lib faults p a.gap_event_ids d ≡ ok (tt, d'))
unfolding gap_commit finish_gap
update_commits lib faults a p s d (out, kept, valid) held live mine readable same calm =
    let ids : a.gap_event_ids ≡ p.gap_event.event_id ∷ [] = ap (λ x. x.gap_event_ids) out in
    let passes =
      subst (λ x. check_completion lib p x p ≡ ok tt) (sym ids)
        (completion_passes lib p valid same) in
    elim (Result-cases (get d.last_runtime_gap_reconciliation)) [
      | inr (e, failed) ↦ absurd (ground (arith, readable, failed))
      | inl (last, found) ↦ (
        record d {
          lifecycle_checkpoint = present (reconciled_session p s);
          last_runtime_gap_reconciliation = present (last_of p a.gap_event_ids);
          pending_runtime_gap_reconciliation = absent;
        },
        ground (
          arith,
          kept,
          held,
          passes,
          closes faults a.gap_event_ids p s d last found live mine calm,
        ),
      )
    ]

-- A runtime gap that is prepared for an open session can be committed: where the platform's calls
-- succeed and no fault is injected, the commit of the prepared intent with the prepared identifiers
-- succeeds. The session in config.json is the one of the intent and has a valid name, the record of
-- the last reconciliation can be read, and an event is equal to itself.
pub commit_runtime_gap-prepare_runtime_gap :
    (os : ConfigPlatform) (g : StoreGeneration) (lib : GapLibrary) (r : RuntimeGapReconcileRequest)
    (faults : RuntimeFaultInjector) (w : ConfigWorld) (d : ConfigDocument)
    (a : PreparedRuntimeGapReconciliation) (p : PendingRuntimeGapReconciliation)
    (s : RuntimeSession)
    → file_document w.config ≡ ok d
    → d.lifecycle_checkpoint ≡ present s
    → validate_session_id s.session_id ≡ ok tt
    → is_open s ≡ true
    → is_readable d.last_runtime_gap_reconciliation ≡ true
    → (prepare_runtime_gap os g lib r w).0 ≡ ok a
    → a.pending ≡ some p
    → str_eq s.session_id p.session_id ≡ true
    → lib.same_event p.gap_event p.gap_event ≡ true
    → faults.fail_before_checkpoint_write ≡ false
    → (commit_runtime_gap calm_config g lib p a.gap_event_ids faults
        (prepare_runtime_gap os g lib r w).1).0
      ≡ ok tt
unfolding prepare_runtime_gap commit_runtime_gap validate_runtime_gap_request
commit_runtime_gap-prepare_runtime_gap os g lib r faults w d a p s read held named live readable h
      found mine same calm =
    let (passed, (e, d', stood, changed, written)) =
      checked_ok (validate_runtime_gap_request r) os g (gap_update lib r) w a h in
    let is : e ≡ d = ok_injective e d (sym stood ∙ read) in
    let updated : gap_update lib r d ≡ ok (a, d') =
      subst (λ x. gap_update lib r x ≡ ok (a, d')) is changed in
    let zoned =
      refuse-ok (is_bad_timezone r.display_timezone)
        (configuration "runtime gap display timezone must be non-empty and bounded") passed in
    let (out, kept, valid) = prepared_gap lib r s d d' a p held named zoned updated found in
    let (same_mode, same_session, same_last) = gap_update-Spares lib r d d' a updated in
    let (d'', commits) =
      update_commits lib faults a p s d' (out, kept, valid) (same_session ∙ held) live mine
        (ap (λ x. is_readable x) same_last ∙ readable) same calm in
    checked_again (validate_runtime_gap_request r) (validate_pending_runtime_gap p) os g
      (gap_update lib r) (gap_commit lib faults p a.gap_event_ids) w d' d'' a tt h written valid
      commits
