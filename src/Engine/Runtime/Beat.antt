-- ===== src/Engine/Runtime/Beat.antt =====
-- What resolving an intent to acknowledge heartbeats does to the session.
use open_chronicle_next.Base.{
  ℕ, ◌≡◌, ◌≤◌, ◌⊎◌, inl, inr, refl, sym, ap, subst, Bool, true, false, ◌&&◌, ◌||◌, not, Option,
  none, some, List, [], ◌∷◌, any, every, contains, max, ltb, leb, ◌==◌, if◌then◌else◌, arith,
  Bool-cases, not-false,
}
use open_chronicle_next.Base.Outcome.{ok, ◌>>=◌, ◌>>◌, refuse, refuse-ok, >>-eq-ok, >>-eq-pair}
use open_chronicle_next.Domain.Time.{Instant}
use open_chronicle_next.Store.World.{StoreGeneration}
use open_chronicle_next.Engine.Errors.{configuration}
use open_chronicle_next.Engine.Config.{
  absent, present, RuntimeSession, ConfigDocument, ConfigWorld, ConfigPlatform, object,
  HeartbeatAcknowledgementProof, HeartbeatAcknowledgementIntent, get,
}
use open_chronicle_next.Engine.Runtime.{RuntimeFaultInjector, check_checkpoint_write}
use open_chronicle_next.Engine.Runtime.Heartbeat.{
  validate_heartbeat_intent, heartbeat_proofs_match, canonical_heartbeat, advance, acknowledge,
  resolve_canonical, resolve_step, resolution, check_canonical, resolve_heartbeat_intent,
}
use open_chronicle_next.Engine.Runtime.Document.{file_document, checked_ok}

-- A proof of that instant is canonical.
abbrev pub is_proved : List ℕ → List HeartbeatAcknowledgementProof → Instant → Bool
is_proved ids ps at = any (λ p. contains p.event_id ids && p.heartbeat_at == at) ps

-- No canonical proof is later.
abbrev pub covers : List ℕ → List HeartbeatAcknowledgementProof → Instant → Bool
covers ids ps at = every (λ p. not (contains p.event_id ids) || leb p.heartbeat_at at) ps

covers_le :
    (ids : List ℕ) (ps : List HeartbeatAcknowledgementProof) (a b : Instant)
    → a ≤ b
    → covers ids ps a ≡ true
    → covers ids ps b ≡ true
covers_le ids [] a b le h = refl
covers_le ids (p ∷ ps) a b le h = ground (arith, covers_le ids ps a b le)

-- The canonical heartbeat is that of a canonical proof, and no canonical proof is later.
abbrev Latest : List ℕ → List HeartbeatAcknowledgementProof → Option Instant → Type 0
Latest ids ps none = (at : Instant) → covers ids ps at ≡ true
Latest ids ps (some at) = (is_proved ids ps at ≡ true) × (covers ids ps at ≡ true)

Latest-step :
    (ids : List ℕ) (p : HeartbeatAcknowledgementProof) (ps : List HeartbeatAcknowledgementProof)
    (b : Bool) (rest : Option Instant)
    → contains p.event_id ids ≡ b
    → Latest ids ps rest
    → Latest ids (p ∷ ps) (
        if b
        then elim rest [ none ↦ some p.heartbeat_at | some at ↦ some (max p.heartbeat_at at) ]
        else rest)
Latest-step ids p ps true none is h = let bounds = h p.heartbeat_at in (ground arith, ground arith)
Latest-step ids p ps true (some at) is h =
    let (proved, bounds) = h in
    let more = covers_le ids ps at (max p.heartbeat_at at) (omega arith) bounds in
    (
      elim (Bool-cases (leb at p.heartbeat_at)) [
        | inl le ↦ let same : max p.heartbeat_at at ≡ p.heartbeat_at = ground arith in ground arith
        | inr gt ↦ let same : max p.heartbeat_at at ≡ at = ground arith in ground arith
      ],
      ground arith,
    )
Latest-step ids p ps false none is h = λ at. let bounds = h at in ground arith
Latest-step ids p ps false (some at) is h = let (proved, bounds) = h in (ground arith, ground arith)

canonical_heartbeat-Latest :
    (ids : List ℕ) (ps : List HeartbeatAcknowledgementProof)
    → Latest ids ps (canonical_heartbeat ids ps)
unfolding canonical_heartbeat
canonical_heartbeat-Latest ids [] = λ at. refl
canonical_heartbeat-Latest ids (p ∷ ps) =
    Latest-step ids p ps (contains p.event_id ids) (canonical_heartbeat ids ps) refl
      (canonical_heartbeat-Latest ids ps)

-- Proofs that match have the same canonical heartbeat.
canonical_heartbeat-match :
    (ids : List ℕ) (ps qs : List HeartbeatAcknowledgementProof)
    → heartbeat_proofs_match ps qs ≡ true
    → canonical_heartbeat ids ps ≡ canonical_heartbeat ids qs
unfolding heartbeat_proofs_match canonical_heartbeat
canonical_heartbeat-match ids [] [] h = refl
canonical_heartbeat-match ids [] (q ∷ qs) h = absurd (ground arith)
canonical_heartbeat-match ids (p ∷ ps) [] h = absurd (ground arith)
canonical_heartbeat-match ids (p ∷ ps) (q ∷ qs) h =
    let ids_same : p.event_id ≡ q.event_id = ground arith in
    let times_same : p.heartbeat_at ≡ q.heartbeat_at = ground arith in
    let rest = canonical_heartbeat-match ids ps qs (ground arith) in ground arith

-- The session after a resolution.
abbrev pub after : List ℕ → List HeartbeatAcknowledgementProof → RuntimeSession → RuntimeSession
after ids ps s = elim (canonical_heartbeat ids ps) [ none ↦ s | some at ↦ advance at s ]

resolved_canonical :
    (faults : RuntimeFaultInjector) (at : Option Instant) (d d' : ConfigDocument)
    (s : RuntimeSession)
    → d.lifecycle_checkpoint ≡ present s
    → resolve_canonical faults at d ≡ ok (tt, d')
    → (d'.lifecycle_checkpoint ≡ present (elim at [ none ↦ s | some t ↦ advance t s ]))
      × (d'.heartbeat_acknowledgement_intent ≡ absent)
unfolding resolve_canonical acknowledge
resolved_canonical faults none d d' s held h = (ground arith, ground arith)
resolved_canonical faults (some at) d d' s held h =
    let running = subst (λ e. (get e >>= λ k. acknowledge faults at k d) ≡ ok (tt, d')) held h in
    let (done, left) =
      >>-eq-pair (check_checkpoint_write faults) tt
        (record d {
          lifecycle_checkpoint = present (advance at s);
          heartbeat_acknowledgement_intent = absent;
        })
        running in
    (
      sym (ap (λ x. x.lifecycle_checkpoint) left),
      sym (ap (λ x. x.heartbeat_acknowledgement_intent) left),
    )

resolution_lem :
    (faults : RuntimeFaultInjector) (expected stored : HeartbeatAcknowledgementIntent)
    (ids : List ℕ) (d d' : ConfigDocument) (s : RuntimeSession)
    → d.lifecycle_checkpoint ≡ present s
    → d.heartbeat_acknowledgement_intent ≡ present stored
    → resolution faults expected ids d ≡ ok (tt, d')
    → (d'.lifecycle_checkpoint
        ≡ present
            (elim (canonical_heartbeat ids expected.proofs) [ none ↦ s | some t ↦ advance t s ]))
      × (d'.heartbeat_acknowledgement_intent ≡ absent)
unfolding resolution resolve_step
resolution_lem faults expected stored ids d d' s held kept h =
    let opened =
      subst (λ e. (get e >>= λ i. resolve_step faults expected ids i d) ≡ ok (tt, d')) kept h in
    let (checks, rest) =
      >>-eq-ok
        (validate_heartbeat_intent stored
          >> refuse (not (heartbeat_proofs_match stored.proofs expected.proofs))
              (configuration "heartbeat acknowledgement intent changed during reconciliation"))
        (resolve_canonical faults (canonical_heartbeat ids stored.proofs) d) opened in
    let (valid, matched) =
      >>-eq-ok (validate_heartbeat_intent stored)
        (refuse (not (heartbeat_proofs_match stored.proofs expected.proofs))
          (configuration "heartbeat acknowledgement intent changed during reconciliation"))
        checks in
    let same = canonical_heartbeat-match ids stored.proofs expected.proofs (
      not-false _
        (refuse-ok (not (heartbeat_proofs_match stored.proofs expected.proofs)) _ matched)) in
    resolved_canonical faults (canonical_heartbeat ids expected.proofs) d d' s held
      (subst (λ c. resolve_canonical faults c d ≡ ok (tt, d')) same rest)

-- The session with its heartbeat at the later of its own and the canonical one.
abbrev pub Acknowledged :
    (ids : List ℕ) → List HeartbeatAcknowledgementProof → (old new : RuntimeSession) → Type 0
Acknowledged ids ps old new =
    (new.session_id ≡ old.session_id)
    × (new.started_at ≡ old.started_at)
    × (new.closed_at ≡ old.closed_at)
    × (old.last_heartbeat_at ≤ new.last_heartbeat_at)
    × (covers ids ps new.last_heartbeat_at ≡ true)
    × ((new.last_heartbeat_at ≡ old.last_heartbeat_at)
        ⊎ (is_proved ids ps new.last_heartbeat_at ≡ true))

advanced :
    (ids : List ℕ) (ps : List HeartbeatAcknowledgementProof) (at : Option Instant)
    (s : RuntimeSession)
    → Latest ids ps at
    → Acknowledged ids ps s (elim at [ none ↦ s | some t ↦ advance t s ])
advanced ids ps none s h = (refl, refl, refl, omega arith, h s.last_heartbeat_at, inl refl)
advanced ids ps (some at) s h =
    let (proved, bounds) = h in
    elim (Bool-cases (ltb s.last_heartbeat_at at)) [
      | inl later ↦ (refl, refl, refl, ground arith, ground arith, inr (ground arith))
      | inr earlier ↦
          let covered = covers_le ids ps at s.last_heartbeat_at (ground arith) bounds in
          (refl, refl, refl, ground arith, ground arith, inl (ground arith))
    ]

-- An intent to acknowledge heartbeats that is resolved is gone from config.json. The session keeps
-- its name, its start and its end; its last heartbeat does not go back, is not before that of any
-- canonical proof of the intent, and is the old one or that of such a proof.
pub resolve_heartbeat_intent_lem :
    (os : ConfigPlatform) (g : StoreGeneration) (expected stored : HeartbeatAcknowledgementIntent)
    (ids : List ℕ) (faults : RuntimeFaultInjector) (w : ConfigWorld) (d : ConfigDocument)
    (s : RuntimeSession)
    → file_document w.config ≡ ok d
    → d.lifecycle_checkpoint ≡ present s
    → d.heartbeat_acknowledgement_intent ≡ present stored
    → (resolve_heartbeat_intent os g expected ids faults w).0 ≡ ok tt
    → (d' : ConfigDocument) × (s' : RuntimeSession) × ((resolve_heartbeat_intent os g expected ids
          faults w).1
        ≡ record w { config = object d' })
      × (d'.heartbeat_acknowledgement_intent ≡ absent)
      × (d'.lifecycle_checkpoint ≡ present s')
      × Acknowledged ids expected.proofs s s'
unfolding resolve_heartbeat_intent
resolve_heartbeat_intent_lem os g expected stored ids faults w d s read held kept h =
    let (passed, (e, d', found, changed, left)) =
      checked_ok (check_canonical expected ids) os g (resolution faults expected ids) w tt h in
    let same : e ≡ d = ground arith in
    let stands = subst (λ x. resolution faults expected ids x ≡ ok (tt, d')) same changed in
    let (session, gone) = resolution_lem faults expected stored ids d d' s held kept stands in
    (
      d',
      _,
      left,
      gone,
      session,
      advanced ids expected.proofs (canonical_heartbeat ids expected.proofs) s
          (canonical_heartbeat-Latest ids expected.proofs),
    )
