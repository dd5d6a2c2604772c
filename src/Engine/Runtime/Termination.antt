-- ===== src/Engine/Runtime/Termination.antt =====
-- crates/chronicle-engine/src/runtime.rs: `prepare_termination`.
use open_chronicle_next.Base.{String, Option, none, some, max, ltb, str_eq}
use open_chronicle_next.Base.Outcome.{Result, ok, err, ◌>>=◌, ◌>>◌, refuse, require}
use open_chronicle_next.Domain.Time.{Instant}
use open_chronicle_next.Store.World.{StoreGeneration}
use open_chronicle_next.Engine.Errors.{EngineError, configuration}
use open_chronicle_next.Engine.Config.{present, RuntimeSession, ConfigPlatform, ConfigAction}
use open_chronicle_next.Engine.Runtime.{Update, current_session, update_document, checked}
use open_chronicle_next.Engine.Runtime.Validate.{validate_session_id}

-- The session that a termination leaves: one that is closed stays as it is.
unfoldable pub terminated : String → Instant → RuntimeSession → Result EngineError RuntimeSession
terminated id now s =
    require (str_eq s.session_id id)
      (configuration "termination session does not match the active session")
    >> refuse (ltb now s.started_at) (configuration "termination cannot precede session start")
    >> ok (elim s.closed_at [
      | some at ↦ s
      | none ↦ record s { closed_at = some (max s.last_heartbeat_at now) }
    ])

unfoldable pub terminate_session : String → Instant → Option RuntimeSession → Update (Unit {0})
unfolding terminated
terminate_session id now none d = err (configuration "no active runtime session to terminate")
terminate_session id now (some s) d =
    terminated id now s >>= λ t. ok (tt, record d { lifecycle_checkpoint = present t })

unfoldable pub termination : String → Instant → Update (Unit {0})
unfolding terminate_session
termination id now d = current_session d >>= λ s. terminate_session id now s d

-- `prepare_termination`.
unfoldable pub prepare_termination :
    ConfigPlatform → StoreGeneration → String → Instant → ConfigAction (Unit {0})
unfolding termination validate_session_id
prepare_termination os g id now =
    checked (validate_session_id id) (update_document os g (termination id now))
