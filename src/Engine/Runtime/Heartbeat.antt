-- ===== src/Engine/Runtime/Heartbeat.antt =====
-- crates/chronicle-engine/src/runtime.rs: the intent to acknowledge heartbeats, and its resolution.
use open_chronicle_next.Base.{
  ℕ, Bool, true, false, ◌&&◌, ◌||◌, not, Option, none, some, List, [], ◌∷◌, length, contains, any,
  max, map, ltb, ◌==◌, if◌then◌else◌,
}
use open_chronicle_next.Base.Outcome.{Result, ok, err, ◌>>=◌, ◌>>◌, refuse}
use open_chronicle_next.Domain.Time.{Instant}
use open_chronicle_next.Store.World.{StoreGeneration}
use open_chronicle_next.Engine.Errors.{EngineError, configuration}
use open_chronicle_next.Engine.Config.{
  absent, present, RuntimeSession, ConfigPlatform, ConfigAction, HeartbeatAcknowledgementProof,
  HeartbeatAcknowledgementIntent, get,
}
use open_chronicle_next.Engine.Runtime.{
  Update, RuntimeFaultInjector, check_checkpoint_write, current_session, read_result,
  update_document, checked,
}

abbrev max_heartbeat_acknowledgement_proofs : ℕ
max_heartbeat_acknowledgement_proofs = 4

-- Some identifier comes twice.
unfoldable pub has_duplicates : List ℕ → Bool
has_duplicates [] = false
has_duplicates (a ∷ rest) = contains a rest || has_duplicates rest

-- Some instant is before the one in front of it.
unfoldable pub is_unordered : List HeartbeatAcknowledgementProof → Bool
is_unordered [] = false
is_unordered (p ∷ []) = false
is_unordered (p ∷ q ∷ rest) = ltb q.heartbeat_at p.heartbeat_at || is_unordered (q ∷ rest)

abbrev pub proof_ids : List HeartbeatAcknowledgementProof → List ℕ
proof_ids ps = map (λ p. p.event_id) ps

unfoldable pub validate_heartbeat_intent :
    HeartbeatAcknowledgementIntent → Result EngineError (Unit {0})
unfolding has_duplicates is_unordered
validate_heartbeat_intent i =
    refuse (length i.proofs == 0)
      (configuration "heartbeat acknowledgement intent requires at least one proof")
    >> refuse (ltb max_heartbeat_acknowledgement_proofs (length i.proofs))
        (configuration "heartbeat acknowledgement intent exceeds 4 proofs")
    >> refuse (has_duplicates (proof_ids i.proofs))
        (configuration "heartbeat acknowledgement intent contains duplicate proof event IDs")
    >> refuse (is_unordered i.proofs)
        (configuration "heartbeat acknowledgement proofs must be ordered by factual timestamp")

-- `heartbeat_proofs_match`.
unfoldable pub heartbeat_proofs_match :
    List HeartbeatAcknowledgementProof → List HeartbeatAcknowledgementProof → Bool
heartbeat_proofs_match [] [] = true
heartbeat_proofs_match (p ∷ ps) (q ∷ qs) =
    (p.event_id == q.event_id && p.heartbeat_at == q.heartbeat_at) && heartbeat_proofs_match ps qs
heartbeat_proofs_match _ _ = false

unfoldable pub keep_intent :
    HeartbeatAcknowledgementIntent
    → Option HeartbeatAcknowledgementIntent
    → Update HeartbeatAcknowledgementIntent
unfolding validate_heartbeat_intent heartbeat_proofs_match
keep_intent candidate none d =
    ok (candidate, record d { heartbeat_acknowledgement_intent = present candidate })
keep_intent candidate (some existing) d =
    validate_heartbeat_intent existing
    >> refuse (not (heartbeat_proofs_match existing.proofs candidate.proofs))
        (configuration "a different heartbeat acknowledgement intent is unresolved")
    >> ok (existing, d)

unfoldable pub heartbeat_update :
    HeartbeatAcknowledgementIntent → Update HeartbeatAcknowledgementIntent
unfolding keep_intent
heartbeat_update candidate d =
    get d.heartbeat_acknowledgement_intent >>= λ existing. keep_intent candidate existing d

-- The latest instant of the proofs that are canonical.
unfoldable pub canonical_heartbeat : List ℕ → List HeartbeatAcknowledgementProof → Option Instant
canonical_heartbeat ids [] = none
canonical_heartbeat ids (p ∷ ps) =
    let rest = canonical_heartbeat ids ps in
    if contains p.event_id ids
    then elim rest [ none ↦ some p.heartbeat_at | some at ↦ some (max p.heartbeat_at at) ]
    else rest

abbrev pub advance : Instant → RuntimeSession → RuntimeSession
advance at s = record {
  session_id = s.session_id;
  started_at = s.started_at;
  last_heartbeat_at = (if ltb s.last_heartbeat_at at then at else s.last_heartbeat_at);
  closed_at = s.closed_at;
}

-- The session's heartbeat follows the canonical one, and never goes back.
unfoldable pub acknowledge :
    RuntimeFaultInjector → Instant → Option RuntimeSession → Update (Unit {0})
acknowledge faults at none d =
    err (configuration "canonical heartbeat intent has no runtime session")
acknowledge faults at (some s) d =
    check_checkpoint_write faults
    >> ok (
      tt,
      record d {
        lifecycle_checkpoint = present (advance at s);
        heartbeat_acknowledgement_intent = absent;
      },
    )

unfoldable pub resolve_canonical : RuntimeFaultInjector → Option Instant → Update (Unit {0})
unfolding acknowledge
resolve_canonical faults none d = ok (tt, record d { heartbeat_acknowledgement_intent = absent })
resolve_canonical faults (some at) d = current_session d >>= λ s. acknowledge faults at s d

unfoldable pub resolve_step :
    RuntimeFaultInjector
    → (expected : HeartbeatAcknowledgementIntent) → List ℕ
    → Option HeartbeatAcknowledgementIntent
    → Update (Unit {0})
unfolding validate_heartbeat_intent heartbeat_proofs_match canonical_heartbeat resolve_canonical
resolve_step faults expected ids none d = ok (tt, d)
resolve_step faults expected ids (some intent) d =
    validate_heartbeat_intent intent
    >> refuse (not (heartbeat_proofs_match intent.proofs expected.proofs))
        (configuration "heartbeat acknowledgement intent changed during reconciliation")
    >> resolve_canonical faults (canonical_heartbeat ids intent.proofs) d

unfoldable pub resolution :
    RuntimeFaultInjector → HeartbeatAcknowledgementIntent → List ℕ → Update (Unit {0})
unfolding resolve_step
resolution faults expected ids d =
    get d.heartbeat_acknowledgement_intent >>= λ intent. resolve_step faults expected ids intent d

-- The canonical identifiers are different members of the intent.
unfoldable pub check_canonical :
    HeartbeatAcknowledgementIntent → List ℕ → Result EngineError (Unit {0})
unfolding validate_heartbeat_intent has_duplicates
check_canonical expected ids =
    validate_heartbeat_intent expected
    >> refuse (has_duplicates ids || any (λ id. not (contains id (proof_ids expected.proofs))) ids)
        (configuration "canonical heartbeat proofs must be unique members of the intent")

unfoldable pub checked_intent :
    Option HeartbeatAcknowledgementIntent
    → Result EngineError (Option HeartbeatAcknowledgementIntent)
unfolding validate_heartbeat_intent
checked_intent none = ok none
checked_intent (some intent) = validate_heartbeat_intent intent >> ok (some intent)

module _ (os : ConfigPlatform) (g : StoreGeneration) where
  -- `heartbeat_intent`.
  unfoldable pub heartbeat_intent : ConfigAction (Option HeartbeatAcknowledgementIntent)
  unfolding checked_intent
  heartbeat_intent =
      read_result os g (λ d. get d.heartbeat_acknowledgement_intent >>= checked_intent)

  -- `prepare_heartbeat_intent`.
  unfoldable pub prepare_heartbeat_intent :
      List HeartbeatAcknowledgementProof → ConfigAction HeartbeatAcknowledgementIntent
  unfolding heartbeat_update validate_heartbeat_intent
  prepare_heartbeat_intent proofs =
      checked (validate_heartbeat_intent (record { proofs = proofs }))
        (update_document os g (heartbeat_update (record { proofs = proofs })))

  -- `resolve_heartbeat_intent`.
  unfoldable pub resolve_heartbeat_intent :
      HeartbeatAcknowledgementIntent → List ℕ → RuntimeFaultInjector → ConfigAction (Unit {0})
  unfolding resolution check_canonical
  resolve_heartbeat_intent expected ids faults =
      checked (check_canonical expected ids) (update_document os g (resolution faults expected ids))
