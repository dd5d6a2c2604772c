-- ===== src/Engine/Runtime/Awaited.antt =====
-- The intent of a runtime gap that a request leaves in config.json.
use open_chronicle_next.Base.{
  ℕ, ◌≡◌, sym, ap, subst, ◌∙◌, inl, inr, Bool, true, false, ◌&&◌, not, Option, none, some, min, max,
  str_eq, ltb, ◌==◌, if◌then◌else◌, arith, Bool-cases, Option-cases,
}
use open_chronicle_next.Base.Outcome.{
  ok, map_err, ◌>>=◌, ◌>>◌, refuse, >>-eq-ok, >>-eq-pair, ok_injective, Result-cases,
}
use open_chronicle_next.Domain.Event.{EventEnvelope, RecordingGap}
use open_chronicle_next.Domain.Event.Validate.{validate}
use open_chronicle_next.Engine.Errors.{configuration, aggregation}
use open_chronicle_next.Engine.Config.{
  Entry, absent, malformed, present, RuntimeSession, RuntimeGapReason, ConfigDocument,
  PendingRuntimeGapReconciliation, get,
}
use open_chronicle_next.Engine.Runtime.{
  GapLibrary, RuntimeGapReconcileRequest, PreparedRuntimeGapReconciliation,
}
use open_chronicle_next.Engine.Runtime.Validate.{
  gap_of, gap_reason, same_runtime_reason, is_bad_timezone, boundary_matches, check_pending_gap,
  validate_session_id, validate_pending_runtime_gap, runtime_gap_request_matches_pending,
}
use open_chronicle_next.Engine.Runtime.Gap.{
  pending_gap, intent_of, runtime_gap, runtime_gap_event, retry_gap, open_gap, repeats, judge_gap,
  begin_gap, gap_step, gap_update,
}
use open_chronicle_next.Engine.Runtime.Restart.{str_same}

-- A key that serde reads.
abbrev pub is_readable : {A : Type 0} → Entry A → Bool
is_readable absent = true
is_readable malformed = false
is_readable (present a) = true

made_valid :
    (lib : GapLibrary) (r : RuntimeGapReconcileRequest) (s : RuntimeSession) (e : EventEnvelope)
    → runtime_gap_event lib
        (min r.now s.last_heartbeat_at)
        (max r.now s.last_heartbeat_at)
        r
        s.session_id
      ≡ ok e
    → (runtime_gap lib
          (min r.now s.last_heartbeat_at)
          (max r.now s.last_heartbeat_at)
          r
          s.session_id
        ≡ e)
      × (validate e ≡ ok tt)
unfolding runtime_gap_event
made_valid lib r s e h =
    let built =
      runtime_gap lib (min r.now s.last_heartbeat_at) (max r.now s.last_heartbeat_at) r
        s.session_id in
    let (valid, same) = >>-eq-ok (map_err aggregation (validate built)) (ok built) h in
    let is = ok_injective _ _ same in
    (is, subst (λ x. validate x ≡ ok tt) is (ground (arith, valid)))

bounds :
    (corrects : Bool) (now last : ℕ)
    → (ltb now last && not corrects) ≡ false
    → (if corrects && ltb now (max now last) then min now last == now else max now last == now)
      ≡ true
bounds true now last h = ground arith
bounds false now last h = ground arith

-- The intent of a gap from the last heartbeat passes the check of a stored one.
intent_valid :
    (lib : GapLibrary) (r : RuntimeGapReconcileRequest) (s : RuntimeSession) (e : EventEnvelope)
    → validate_session_id s.session_id ≡ ok tt
    → is_bad_timezone r.display_timezone ≡ false
    → (ltb r.now s.last_heartbeat_at
        && not (same_runtime_reason r.reason RuntimeGapReason.clock_correction))
      ≡ false
    → runtime_gap_event lib
        (min r.now s.last_heartbeat_at)
        (max r.now s.last_heartbeat_at)
        r
        s.session_id
      ≡ ok e
    → validate_pending_runtime_gap (intent_of r s e) ≡ ok tt
unfolding validate_pending_runtime_gap check_pending_gap
intent_valid lib r s e named zoned allowed h =
    let (is, valid) = made_valid lib r s e h in
    let gap : RecordingGap = record {
      start = min r.now s.last_heartbeat_at;
      end = max r.now s.last_heartbeat_at;
      reason = gap_reason r.reason;
    } in
    let payload : gap_of e.payload ≡ some gap = ap (λ x. gap_of x.payload) (sym is) in
    let device : e.device_id ≡ r.device_id = ap (λ x. x.device_id) (sym is) in
    let zone : str_eq e.display_timezone r.display_timezone ≡ true =
      ap (λ x. str_eq x.display_timezone r.display_timezone) (sym is)
      ∙ str_same r.display_timezone in
    let bounded : boundary_matches r.reason r.now gap ≡ true =
      bounds (same_runtime_reason r.reason RuntimeGapReason.clock_correction) r.now
        s.last_heartbeat_at allowed in
    ground (arith, named, zoned, valid, payload, device, zone, bounded)

-- The caller gets the intent that stands in config.json, and it passes the check of a stored one.
abbrev pub Awaits :
    PreparedRuntimeGapReconciliation → ConfigDocument → PendingRuntimeGapReconciliation → Type 0
Awaits a d p =
    (a ≡ pending_gap p)
    × (d.pending_runtime_gap_reconciliation ≡ present p)
    × (validate_pending_runtime_gap p ≡ ok tt)

awaits :
    (a : PreparedRuntimeGapReconciliation) (d : ConfigDocument)
    (q p : PendingRuntimeGapReconciliation)
    → Awaits a d q
    → a.pending ≡ some p
    → Awaits a d p
awaits a d q p h found =
    let same : q ≡ p = some_injective q p (sym (ap (λ x. x.pending) h.0) ∙ found) in
    subst (λ x. Awaits a d x) same h
  where
    some_injective :
        (x y : PendingRuntimeGapReconciliation)
        → ◌≡◌ {A = Option PendingRuntimeGapReconciliation} (some x) (some y)
        → x ≡ y
    some_injective x y e = cc

retried :
    (r : RuntimeGapReconcileRequest) (q : PendingRuntimeGapReconciliation) (d d' : ConfigDocument)
    (a : PreparedRuntimeGapReconciliation)
    → d.pending_runtime_gap_reconciliation ≡ present q
    → retry_gap r q d ≡ ok (a, d')
    → Awaits a d' q
unfolding retry_gap
retried r q d d' a held h =
    let checks =
      validate_pending_runtime_gap q
      >> refuse (not (runtime_gap_request_matches_pending r q))
          (configuration "a different runtime gap reconciliation is unresolved") in
    let (out, kept) = >>-eq-pair checks (pending_gap q) d h in
    let (passed, rest) = >>-eq-ok checks (ok (pending_gap q, d)) h in
    let (valid, fits) =
      >>-eq-ok (validate_pending_runtime_gap q)
        (refuse (not (runtime_gap_request_matches_pending r q))
          (configuration "a different runtime gap reconciliation is unresolved"))
        passed in
    (sym out, sym (ap (λ x. x.pending_runtime_gap_reconciliation) kept) ∙ held, valid)

opened :
    (lib : GapLibrary) (r : RuntimeGapReconcileRequest) (s : RuntimeSession) (d d' : ConfigDocument)
    (a : PreparedRuntimeGapReconciliation) (p : PendingRuntimeGapReconciliation)
    → validate_session_id s.session_id ≡ ok tt
    → is_bad_timezone r.display_timezone ≡ false
    → open_gap lib r s d ≡ ok (a, d')
    → a.pending ≡ some p
    → Awaits a d' p
unfolding open_gap
opened lib r s d d' a p named zoned h found = elim (Bool-cases (r.now == s.last_heartbeat_at)) [
  | inl same ↦ absurd (ground (arith, h, found, same))
  | inr other ↦
      elim (Bool-cases (
        ltb r.now s.last_heartbeat_at
        && not (same_runtime_reason r.reason RuntimeGapReason.clock_correction))) [
          | inl backward ↦ absurd (ground (arith, h, other, backward))
          | inr allowed ↦
              elim (Result-cases (
                runtime_gap_event lib (min r.now s.last_heartbeat_at)
                  (max r.now s.last_heartbeat_at) r s.session_id)) [
                    | inr (e, failed) ↦ absurd (ground (arith, h, other, allowed, failed))
                    | inl (e, made) ↦
                        let valid = intent_valid lib r s e named zoned allowed made in
                        awaits a d' (intent_of r s e) p
                          (
                            ground (arith, h, other, allowed, made),
                            ground (arith, h, other, allowed, made),
                            valid,
                          )
                          found
                  ]
        ]
]

pub prepared_gap :
    (lib : GapLibrary) (r : RuntimeGapReconcileRequest) (s : RuntimeSession) (d d' : ConfigDocument)
    (a : PreparedRuntimeGapReconciliation) (p : PendingRuntimeGapReconciliation)
    → d.lifecycle_checkpoint ≡ present s
    → validate_session_id s.session_id ≡ ok tt
    → is_bad_timezone r.display_timezone ≡ false
    → gap_update lib r d ≡ ok (a, d')
    → a.pending ≡ some p
    → Awaits a d' p
unfolding gap_update gap_step begin_gap judge_gap
prepared_gap lib r s d d' a p held named zoned h found =
    elim (Result-cases (get d.pending_runtime_gap_reconciliation)) [
      | inr (e, failed) ↦ absurd (ground (arith, h, failed))
      | inl (some q, stored) ↦
          awaits a d' q p
            (retried r q d d' a (ground (arith, stored))
              (subst (λ x. (x >>= λ k. gap_step lib r k d) ≡ ok (a, d')) stored h))
            found
      | inl (none, stored) ↦ elim (Result-cases (get d.last_runtime_gap_reconciliation)) [
        | inr (e, failed) ↦ absurd (ground (arith, h, stored, held, failed))
        | inl (last, kept) ↦ elim (Option-cases (repeats r s.session_id last)) [
          | inr (ids, again) ↦ absurd (ground (arith, h, stored, held, kept, again, found))
          | inl fresh ↦
              opened lib r s d d' a p named zoned (ground (arith, h, stored, held, kept, fresh))
                found
        ]
      ]
    ]
