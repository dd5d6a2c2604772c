-- ===== src/Engine/Runtime/Modest.antt =====
-- The updates of the runtime controller leave the recording mode alone.
use open_chronicle_next.Base.{
  ℕ, String, ◌≡◌, inl, inr, refl, sym, ap, subst, not, Option, none, some, List, [], ◌∷◌, arith,
  min, max, Option-cases,
}
use open_chronicle_next.Base.Outcome.{ok, ◌>>=◌, ◌>>◌, refuse, >>-eq-ok, >>-eq-pair, Result-cases}
use open_chronicle_next.Domain.Time.{Instant}
use open_chronicle_next.Domain.Event.{EventEnvelope}
use open_chronicle_next.Store.World.{StoreGeneration}
use open_chronicle_next.Engine.Errors.{configuration}
use open_chronicle_next.Engine.Config.{
  ConfigFile, object, ConfigDocument, ConfigWorld, ConfigPlatform, RuntimeSession,
  PendingRuntimeGapReconciliation, HeartbeatAcknowledgementIntent, get,
}
use open_chronicle_next.Engine.Study.Latch.{is_latched}
use open_chronicle_next.Engine.Runtime.{
  Update, GapLibrary, RuntimeFaultInjector, StartupReconcileRequest, RuntimeGapReconcileRequest,
  update_document, current_session,
}
use open_chronicle_next.Engine.Runtime.Validate.{
  validate_pending_runtime_gap, runtime_gap_request_matches_pending,
}
use open_chronicle_next.Engine.Runtime.Startup.{
  resume_intent, begin_session, startup_step, startup, startup_commit, finish_intent, install,
}
use open_chronicle_next.Engine.Runtime.Gap.{
  gap_update, gap_step, retry_gap, begin_gap, judge_gap, open_gap, gap_commit, finish_gap,
  close_gap, check_completion, runtime_gap_event, pending_gap, repeats,
}
use open_chronicle_next.Engine.Runtime.Heartbeat.{
  heartbeat_update, keep_intent, resolution, resolve_step, resolve_canonical, acknowledge,
}
use open_chronicle_next.Engine.Runtime.Termination.{termination, terminate_session}
use open_chronicle_next.Engine.Runtime.Document.{file_document, update_cases}

-- An update leaves the recording mode alone.
abbrev pub Modest : {A : Type 0} → Update A → Type 0
Modest {A} update =
    (d d' : ConfigDocument) (a : A) → update d ≡ ok (a, d') → d'.recording_mode ≡ d.recording_mode

latched_document :
    (f : ConfigFile) (d : ConfigDocument)
    → file_document f ≡ ok d
    → is_latched (object d) ≡ is_latched f
unfolding file_document is_latched
latched_document f d h = ground arith

same_latched :
    (d d' : ConfigDocument)
    → d'.recording_mode ≡ d.recording_mode
    → is_latched (object d') ≡ is_latched (object d)
unfolding is_latched
same_latched d d' h = ground arith

-- A call with such an update is a call that does not set the recording mode.
pub Modest-Quiet :
    {A : Type 0} (os : ConfigPlatform) (g : StoreGeneration) (update : Update A) (w : ConfigWorld)
    → Modest update
    → is_latched (update_document os g update w).1.config ≡ is_latched w.config
Modest-Quiet os g update w modest = elim (update_cases os g update w) [
  | inl same ↦ ground arith
  | inr (a, (d, d', held, changed, written)) ↦
      let before = latched_document w.config d held in
      let after = same_latched d d' (modest d d' a changed) in ground arith
]

install_modest :
    (r : StartupReconcileRequest) (d : ConfigDocument) (es : List EventEnvelope)
    → (install r d es).1.recording_mode ≡ d.recording_mode
install_modest r d [] = refl
install_modest r d (e ∷ es) = refl

pub startup-Modest : (lib : GapLibrary) (r : StartupReconcileRequest) → Modest (startup lib r)
unfolding startup startup_step resume_intent begin_session
startup-Modest lib r d d' a h = elim (Result-cases (get d.pending_startup_reconciliation)) [
  | inr (e, failed) ↦ absurd (ground arith)
  | inl (some p, found) ↦ ground arith
  | inl (none, found) ↦ elim (Result-cases (current_session d)) [
    | inr (e, failed) ↦ absurd (ground arith)
    | inl (none, running) ↦ ground arith
    | inl (some s, running) ↦ let leaves = install_modest r d in ground arith
  ]
]

pub startup_commit-Modest : (id : String) (ids : List ℕ) → Modest (startup_commit id ids)
unfolding startup_commit finish_intent
startup_commit-Modest id ids d d' a h = ground arith

-- An update that leaves the session and the last reconciliation alone too.
abbrev Spares : {A : Type 0} → Update A → Type 0
Spares {A} update =
    (d d' : ConfigDocument) (a : A)
    → update d ≡ ok (a, d')
    → (d'.recording_mode ≡ d.recording_mode)
      × (d'.lifecycle_checkpoint ≡ d.lifecycle_checkpoint)
      × (d'.last_runtime_gap_reconciliation ≡ d.last_runtime_gap_reconciliation)

retry_gap-Spares :
    (r : RuntimeGapReconcileRequest) (p : PendingRuntimeGapReconciliation) → Spares (retry_gap r p)
unfolding retry_gap
retry_gap-Spares r p d d' a h =
    let (same, left) =
      >>-eq-pair
        (validate_pending_runtime_gap p
          >> refuse (not (runtime_gap_request_matches_pending r p))
              (configuration "a different runtime gap reconciliation is unresolved"))
        (pending_gap p) d h in
    (
      sym (ap (λ x. x.recording_mode) left),
      sym (ap (λ x. x.lifecycle_checkpoint) left),
      sym (ap (λ x. x.last_runtime_gap_reconciliation) left),
    )

open_gap-Spares :
    (lib : GapLibrary) (r : RuntimeGapReconcileRequest) (s : RuntimeSession)
    → Spares (open_gap lib r s)
unfolding open_gap
open_gap-Spares lib r s d d' a h =
    elim (Result-cases (
      runtime_gap_event lib (min r.now s.last_heartbeat_at) (max r.now s.last_heartbeat_at) r
        s.session_id)) [
          | inr (e, failed) ↦ (ground arith, ground arith, ground arith)
          | inl (e, made) ↦ (ground arith, ground arith, ground arith)
        ]

pub gap_update-Spares :
    (lib : GapLibrary) (r : RuntimeGapReconcileRequest) → Spares (gap_update lib r)
unfolding gap_update gap_step begin_gap judge_gap
gap_update-Spares lib r d d' a h = elim (Result-cases (get d.pending_runtime_gap_reconciliation)) [
  | inr (e, failed) ↦ absurd (ground arith)
  | inl (some p, found) ↦
      retry_gap-Spares r p d d' a
        (subst (λ x. (x >>= λ k. gap_step lib r k d) ≡ ok (a, d')) found h)
  | inl (none, found) ↦ elim (Result-cases (current_session d)) [
    | inr (e, failed) ↦ absurd (ground arith)
    | inl (none, running) ↦ absurd (ground arith)
    | inl (some s, running) ↦ elim (Result-cases (get d.last_runtime_gap_reconciliation)) [
      | inr (e, failed) ↦ absurd (ground arith)
      | inl (last, kept) ↦ elim (Option-cases (repeats r s.session_id last)) [
        | inl fresh ↦ open_gap-Spares lib r s d d' a (ground arith)
        | inr (ids, again) ↦ (
          ground (arith, h, found, running, kept, again),
          ground (arith, h, found, running, kept, again),
          ground (arith, h, found, running, kept, again),
        )
      ]
    ]
  ]
]

pub gap_update-Modest :
    (lib : GapLibrary) (r : RuntimeGapReconcileRequest) → Modest (gap_update lib r)
gap_update-Modest lib r d d' a h = (gap_update-Spares lib r d d' a h).0

close_gap-Modest :
    (faults : RuntimeFaultInjector) (ids : List ℕ) (p : PendingRuntimeGapReconciliation)
    (s : Option RuntimeSession)
    → Modest (close_gap faults ids p s)
unfolding close_gap
close_gap-Modest faults ids p none d d' a h = absurd (ground arith)
close_gap-Modest faults ids p (some s) d d' a h =
    elim (Result-cases (get d.last_runtime_gap_reconciliation)) [
      | inr (e, failed) ↦ absurd (ground arith)
      | inl (last, kept) ↦ ground arith
    ]

pub gap_commit-Modest :
    (lib : GapLibrary) (faults : RuntimeFaultInjector) (p : PendingRuntimeGapReconciliation)
    (ids : List ℕ)
    → Modest (gap_commit lib faults p ids)
unfolding gap_commit finish_gap
gap_commit-Modest lib faults p ids d d' a h =
    elim (Result-cases (get d.pending_runtime_gap_reconciliation)) [
      | inr (e, failed) ↦ absurd (ground arith)
      | inl (none, found) ↦ absurd (ground arith)
      | inl (some q, found) ↦
          let joined =
            subst (λ x. (x >>= λ k. finish_gap lib faults p ids k d) ≡ ok (a, d')) found h in
          let (checks, rest) =
            >>-eq-ok (check_completion lib p ids q)
              (current_session d >>= λ s. close_gap faults ids q s d) joined in
          elim (Result-cases (current_session d)) [
            | inr (e, failed) ↦ absurd (ground arith)
            | inl (s, running) ↦
                close_gap-Modest faults ids q s d d' a
                  (subst (λ x. (x >>= λ k. close_gap faults ids q k d) ≡ ok (a, d')) running rest)
          ]
    ]

pub heartbeat_update-Modest : (i : HeartbeatAcknowledgementIntent) → Modest (heartbeat_update i)
unfolding heartbeat_update keep_intent
heartbeat_update-Modest i d d' a h = ground arith

pub resolution-Modest :
    (faults : RuntimeFaultInjector) (i : HeartbeatAcknowledgementIntent) (ids : List ℕ)
    → Modest (resolution faults i ids)
unfolding resolution resolve_step resolve_canonical acknowledge
resolution-Modest faults i ids d d' a h = ground arith

pub termination-Modest : (id : String) (now : Instant) → Modest (termination id now)
unfolding termination terminate_session
termination-Modest id now d d' a h = ground arith
