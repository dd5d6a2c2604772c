-- ===== src/Engine/Runtime/Restart.antt =====
-- The intent that a start leaves in config.json.
use open_chronicle_next.Base.{
  String, ◌≡◌, inl, inr, refl, sym, ap, subst, ◌∙◌, true, Option, none, some, [], ◌∷◌, ◌++◌,
  append_nil, eq_iff, str_eq, if◌then◌else◌, arith, Bool-cases,
}
use open_chronicle_next.Base.Outcome.{
  Result, ok, ◌>>=◌, >>-eq-ok, >>=-eq-ok, ok_injective, Result-cases,
}
use open_chronicle_next.Domain.Time.{Instant}
use open_chronicle_next.Engine.Errors.{EngineError}
use open_chronicle_next.Engine.Config.{
  Entry, absent, present, RuntimeSession, ConfigDocument, PendingStartupReconciliation, get,
}
use open_chronicle_next.Engine.Runtime.{
  GapLibrary, StartupReconcileRequest, PreparedStartupReconciliation, current_session, new_session,
}
use open_chronicle_next.Engine.Runtime.Validate.{validate_pending_gap_events}
use open_chronicle_next.Engine.Runtime.Startup.{
  gap_since, last_gap_end, extend_intent, resume_intent, install, begin_session, startup_step,
  startup, event_ids, prepared, resumed, prior_boundary,
}
use open_chronicle_next.Engine.Runtime.Chain.{gap_since_lem, valid_one, valid_append}

-- What a resumed intent holds.
extended_valid :
    (lib : GapLibrary) (r : StartupReconcileRequest) (p q : PendingStartupReconciliation)
    (t : Option Instant)
    → validate_pending_gap_events p.gap_events ≡ ok tt
    → last_gap_end p.gap_events ≡ t
    → extend_intent lib r p t ≡ ok q
    → (validate_pending_gap_events q.gap_events ≡ ok tt)
      × (q.new_session ≡ new_session r.session_id r.now)
unfolding extend_intent
extended_valid lib r p q none valid last h = absurd (ground arith)
extended_valid lib r p q (some t) valid last h =
    let (more, since, built) =
      >>=-eq-ok (gap_since lib t r)
        (λ more. ok (record {
          new_session = new_session r.session_id r.now;
          gap_events = p.gap_events ++ more;
        }))
        h in
    let is = ok_injective _ _ built in
    elim (gap_since_lem lib t r more since) [
      | inl (empty, at) ↦
          let whole = ap (λ x. p.gap_events ++ x) empty ∙ append_nil p.gap_events in
          (
            subst (λ x. validate_pending_gap_events x ≡ ok tt)
                (sym whole ∙ ap (λ x. x.gap_events) is) valid,
            sym (ap (λ x. x.new_session) is),
          )
      | inr (e, single, follows) ↦
          let appended = valid_append p.gap_events t e valid last follows in
          (
            subst (λ x. validate_pending_gap_events x ≡ ok tt)
                (ap (λ x. p.gap_events ++ x) (sym single) ∙ ap (λ x. x.gap_events) is) appended,
            sym (ap (λ x. x.new_session) is),
          )
    ]

-- The intent is one of the session that starts, its gaps pass the check of a stored intent, and the
-- caller gets their events.
abbrev pub Intended :
    StartupReconcileRequest → PreparedStartupReconciliation → PendingStartupReconciliation → Type 0
Intended r a p =
    (validate_pending_gap_events p.gap_events ≡ ok tt)
    × (str_eq p.new_session.session_id r.session_id ≡ true)
    × (a ≡ record { gap_events = p.gap_events; gap_event_ids = event_ids p.gap_events })

intended :
    (r : StartupReconcileRequest) (a : PreparedStartupReconciliation)
    (q p : PendingStartupReconciliation) (e : Entry PendingStartupReconciliation)
    → Intended r a q
    → e ≡ present q
    → e ≡ present p
    → Intended r a p
intended r a q p e h left right = let same : q ≡ p = cc in subst (λ x. Intended r a x) same h

pub str_same : (a : String) → str_eq a a ≡ true
str_same a = (eq_iff a a).1 refl

pub stored :
    (d : ConfigDocument) (q : PendingStartupReconciliation)
    → get d.pending_startup_reconciliation ≡ ok (some q)
    → d.pending_startup_reconciliation ≡ present q
stored d q h = ground arith

abbrev Outcome : Type 0
Outcome = Result EngineError (PreparedStartupReconciliation × ConfigDocument)

resumed_valid :
    (lib : GapLibrary) (r : StartupReconcileRequest) (q p : PendingStartupReconciliation)
    (d d' : ConfigDocument) (a : PreparedStartupReconciliation)
    → d.pending_startup_reconciliation ≡ present q
    → resume_intent lib r q d ≡ ok (a, d')
    → d'.pending_startup_reconciliation ≡ present p
    → Intended r a p
unfolding resume_intent
resumed_valid lib r q p d d' a held h left =
    let (valid, rest) =
      >>-eq-ok (validate_pending_gap_events q.gap_events)
        (if str_eq q.new_session.session_id r.session_id
          then ok (prepared q.gap_events, d)
          else (extend_intent lib r q (last_gap_end q.gap_events) >>= λ k. ok (resumed k d)))
        h in
    elim (Bool-cases (str_eq q.new_session.session_id r.session_id)) [
      | inl same ↦
          let left_same : ◌≡◌ {A = Outcome} (ok (prepared q.gap_events, d)) (ok (a, d')) =
            ground (arith, rest, same) in
          let out = ok_injective _ _ left_same in
          intended r a q p d.pending_startup_reconciliation (valid, same, sym (ap (λ x. x.0) out))
            held (ap (λ x. x.1.pending_startup_reconciliation) out ∙ left)
      | inr other ↦
          let extends : ◌≡◌ {A = Outcome}
              (extend_intent lib r q (last_gap_end q.gap_events) >>= λ k. ok (resumed k d))
              (ok (a, d')) =
            ground (arith, rest, other) in
          let (k, extended, built) =
            >>=-eq-ok (extend_intent lib r q (last_gap_end q.gap_events)) (λ k. ok (resumed k d))
              extends in
          let out = ok_injective _ _ built in
          let (good, session) =
            extended_valid lib r q k (last_gap_end q.gap_events) valid refl extended in
          intended r a k p (present k)
            (
              good,
              ap (λ x. str_eq x.session_id r.session_id) session ∙ str_same r.session_id,
              sym (ap (λ x. x.0) out),
            )
            refl (ap (λ x. x.1.pending_startup_reconciliation) out ∙ left)
    ]

begun_valid :
    (lib : GapLibrary) (r : StartupReconcileRequest) (s : Option RuntimeSession)
    (d d' : ConfigDocument) (a : PreparedStartupReconciliation) (p : PendingStartupReconciliation)
    → d.pending_startup_reconciliation ≡ absent
    → begin_session lib r s d ≡ ok (a, d')
    → d'.pending_startup_reconciliation ≡ present p
    → Intended r a p
unfolding begin_session
begun_valid lib r none d d' a p empty h left =
    absurd (ground (arith, ap (λ x. x.1.pending_startup_reconciliation) (ok_injective _ _ h), left))
begun_valid lib r (some s) d d' a p empty h left =
    elim (Bool-cases (str_eq s.session_id r.session_id)) [
      | inl same ↦ absurd (ground (arith, h, same, empty, left))
      | inr other ↦
          let begins : ◌≡◌ {A = Outcome}
              (gap_since lib (prior_boundary s) r >>= λ es. ok (install r d es)) (ok (a, d')) =
            ground (arith, h, other) in
          let (es, since, built) =
            >>=-eq-ok (gap_since lib (prior_boundary s) r) (λ es. ok (install r d es)) begins in
          let out = ok_injective _ _ built in
          elim (gap_since_lem lib (prior_boundary s) r es since) [
            | inl (none_since, at) ↦
                let installs = ap (λ x. (install r d x).1) none_since in
                absurd (
                  ground (
                    arith,
                    ap (λ x. x.1.pending_startup_reconciliation) out,
                    ap (λ x. x.pending_startup_reconciliation) installs,
                    left,
                  ))
            | inr (e, single, follows) ↦
                let waits = ap (λ x. install r d x) (sym single) ∙ out in
                intended r a
                  (record { new_session = new_session r.session_id r.now; gap_events = e ∷ [] }) p
                  (install r d (e ∷ [])).1.pending_startup_reconciliation
                  (
                    valid_one (prior_boundary s) e follows,
                    str_same r.session_id,
                    sym (ap (λ x. x.0) waits),
                  )
                  refl (ap (λ x. x.1.pending_startup_reconciliation) waits ∙ left)
          ]
    ]

-- Whatever stood in config.json, the gaps of an intent that a start leaves pass the check of a
-- stored intent, and they are the events that the caller gets.
pub startup_valid :
    (lib : GapLibrary) (r : StartupReconcileRequest) (d d' : ConfigDocument)
    (a : PreparedStartupReconciliation) (p : PendingStartupReconciliation)
    → startup lib r d ≡ ok (a, d')
    → d'.pending_startup_reconciliation ≡ present p
    → Intended r a p
unfolding startup startup_step
startup_valid lib r d d' a p h left = elim (Result-cases (get d.pending_startup_reconciliation)) [
  | inr (e, failed) ↦ absurd (ground arith)
  | inl (some q, found) ↦
      resumed_valid lib r q p d d' a (stored d q found)
        (subst (λ x. (x >>= λ k. startup_step lib r k d) ≡ ok (a, d')) found h) left
  | inl (none, found) ↦ elim (Result-cases (current_session d)) [
    | inr (e, failed) ↦ absurd (ground arith)
    | inl (s, running) ↦ begun_valid lib r s d d' a p (ground arith) (ground arith) left
  ]
]
