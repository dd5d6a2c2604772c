-- ===== src/Engine/Runtime/Tests.antt =====
-- The theorems on the runtime controller at one session and the session after it.
use open_chronicle_next.Base.{◌≡◌, refl, true, false, some, [], ◌∷◌}
use open_chronicle_next.Base.Outcome.{ok}
use open_chronicle_next.Domain.Ids.{
  utf8_length, byte_length, has_dots, is_opaque_id, validate_opaque_id,
}
use open_chronicle_next.Domain.Event.{EventEnvelope}
use open_chronicle_next.Domain.Event.Validate.{validate, validate_payload, kind_matches}
use open_chronicle_next.Store.World.{StoreGeneration}
use open_chronicle_next.Engine.Config.{
  RuntimeSession, RuntimeGapReason, ConfigDocument, ConfigWorld, HeartbeatAcknowledgementIntent,
  PendingStartupReconciliation, PendingRuntimeGapReconciliation, absent, present, object,
  calm_config, empty_document, judge_generation, ensure_current, enter, read_document,
  write_document,
}
use open_chronicle_next.Engine.Study.Latch.{is_latched}
use open_chronicle_next.Engine.Runtime.{
  GapLibrary, RuntimeFaultInjector, StartupReconcileRequest, RuntimeGapReconcileRequest,
  PreparedStartupReconciliation, new_session, update_document,
}
use open_chronicle_next.Engine.Runtime.Validate.{
  validate_session_id, is_bad_timezone, validate_startup_request, validate_runtime_gap_request,
  validate_pending_runtime_gap, check_pending_gap,
}
use open_chronicle_next.Engine.Runtime.Startup.{
  restart_gap, restart_gap_event, gap_since, begin_session, startup_step, startup, prepare_startup,
  same_ids, finish_intent, startup_commit, commit_startup,
}
use open_chronicle_next.Domain.Event.{GapReason}
use open_chronicle_next.Engine.Runtime.Gap.{
  runtime_gap, intent_of, pending_gap, runtime_gap_event, open_gap, judge_gap, begin_gap, gap_step,
  gap_update, prepare_runtime_gap, close_gap, check_completion, finish_gap, gap_commit,
  commit_runtime_gap, no_gap,
}
use open_chronicle_next.Engine.Runtime.Heartbeat.{
  has_duplicates, is_unordered, validate_heartbeat_intent, heartbeat_proofs_match,
  canonical_heartbeat, acknowledge, resolve_canonical, resolve_step, resolution, check_canonical,
  resolve_heartbeat_intent,
}
use open_chronicle_next.Engine.Runtime.Document.{file_document}
use open_chronicle_next.Engine.Runtime.Frame.{prepares_start, RuntimeCall-latched}
use open_chronicle_next.Engine.Runtime.Beat.{Acknowledged, resolve_heartbeat_intent_lem}
use open_chronicle_next.Engine.Runtime.Restart.{Intended}
use open_chronicle_next.Engine.Runtime.Retry.{
  prepare_startup_lem, prepare_startup-prepare_startup, prepare_startup-commit_startup,
}
use open_chronicle_next.Engine.Runtime.Correction.{prepare_runtime_gap-commit_runtime_gap}
use open_chronicle_next.Engine.Runtime.Progress.{commit_runtime_gap-prepare_runtime_gap}

abbrev first_generation : StoreGeneration
first_generation = record { schema_version = 1; generation = 1; epoch_id = 0 }

-- A library whose identifiers count the start of a gap, and which compares identifiers.
abbrev library : GapLibrary
library = record {
  startup_gap_id = λ start end reason device zone. start;
  runtime_gap_id = λ session start end reason device zone. start;
  same_event = λ a b. true;
}

abbrev old_session : RuntimeSession
old_session = new_session "old" 100

abbrev proofs : HeartbeatAcknowledgementIntent
proofs = record { proofs = record { event_id = 5; heartbeat_at = 130 } ∷ [] }

abbrev document : ConfigDocument
document = record empty_document {
  lifecycle_checkpoint = present old_session;
  heartbeat_acknowledgement_intent = present proofs;
}

abbrev disk : ConfigWorld
disk = record { generation = some first_generation; config = object document }

abbrev no_faults : RuntimeFaultInjector
no_faults = record { fail_before_checkpoint_write = false }

abbrev restart : StartupReconcileRequest
restart = record { session_id = "new"; device_id = 1; display_timezone = "UTC"; now = 200 }

abbrev restart_event : EventEnvelope
restart_event = restart_gap library 100 200 GapReason.quit restart

abbrev restart_intent : PendingStartupReconciliation
restart_intent = record { new_session = new_session "new" 200; gap_events = restart_event ∷ [] }

abbrev started : PreparedStartupReconciliation
started = record { gap_events = restart_event ∷ []; gap_event_ids = 100 ∷ [] }

abbrev waiting : ConfigDocument
waiting = record document { pending_startup_reconciliation = present restart_intent }

RuntimeCall-latched_example :
    is_latched (prepare_startup calm_config first_generation library restart disk).1.config
    ≡ is_latched disk.config
RuntimeCall-latched_example =
    RuntimeCall-latched (prepares_start calm_config first_generation library restart refl)

resolve_heartbeat_intent_lem_example :
    (d' : ConfigDocument) × (s' : RuntimeSession) × ((resolve_heartbeat_intent calm_config
        first_generation proofs
        (5 ∷ [])
        no_faults
        disk).1
      ≡ record disk { config = object d' })
    × (d'.heartbeat_acknowledgement_intent ≡ absent)
    × (d'.lifecycle_checkpoint ≡ present s')
    × Acknowledged (5 ∷ []) proofs.proofs old_session s'
unfolding file_document resolve_heartbeat_intent update_document enter ensure_current
    judge_generation read_document write_document check_canonical validate_heartbeat_intent
    has_duplicates is_unordered resolution resolve_step heartbeat_proofs_match canonical_heartbeat
    resolve_canonical acknowledge
resolve_heartbeat_intent_lem_example =
    resolve_heartbeat_intent_lem calm_config first_generation proofs proofs (5 ∷ []) no_faults disk
      document old_session refl refl refl refl

prepare_startup_lem_example : Intended restart started restart_intent
unfolding prepare_startup validate_startup_request validate_session_id validate_opaque_id
    is_opaque_id has_dots byte_length utf8_length is_bad_timezone update_document enter
    ensure_current judge_generation read_document write_document startup startup_step begin_session
    gap_since restart_gap_event validate validate_payload kind_matches
prepare_startup_lem_example =
    prepare_startup_lem calm_config first_generation library restart disk waiting started
      restart_intent refl refl refl

-- The same start again, later.
abbrev restart_later : StartupReconcileRequest
restart_later = record { session_id = "new"; device_id = 1; display_timezone = "UTC"; now = 300 }

prepare_startup-prepare_startup_example :
    (prepare_startup calm_config first_generation library restart_later
      (prepare_startup calm_config first_generation library restart disk).1).0
    ≡ ok started
unfolding prepare_startup validate_startup_request validate_session_id validate_opaque_id
    is_opaque_id has_dots byte_length utf8_length is_bad_timezone update_document enter
    ensure_current judge_generation read_document write_document startup startup_step begin_session
    gap_since restart_gap_event validate validate_payload kind_matches
prepare_startup-prepare_startup_example =
    prepare_startup-prepare_startup calm_config first_generation library restart restart_later disk
      waiting started restart_intent refl refl refl refl refl

abbrev waiting_disk : ConfigWorld
waiting_disk = record { generation = some first_generation; config = object waiting }

prepare_startup-commit_startup_example :
    (prepare_startup calm_config first_generation library restart_later
      (commit_startup calm_config first_generation "new" (100 ∷ []) waiting_disk).1).0
    ≡ ok (record { gap_events = []; gap_event_ids = 100 ∷ [] })
unfolding commit_startup startup_commit finish_intent same_ids validate_startup_request
    validate_session_id validate_opaque_id is_opaque_id has_dots byte_length utf8_length
    is_bad_timezone update_document enter ensure_current judge_generation read_document
    write_document
prepare_startup-commit_startup_example =
    prepare_startup-commit_startup calm_config first_generation library restart_later (100 ∷ [])
      waiting_disk refl refl

abbrev sleep : RuntimeGapReconcileRequest
sleep = record {
  reason = RuntimeGapReason.sleep;
  device_id = 1;
  display_timezone = "UTC";
  now = 160;
}

abbrev sleep_intent : PendingRuntimeGapReconciliation
sleep_intent = intent_of sleep old_session (runtime_gap library 100 160 sleep "old")

abbrev asleep : ConfigWorld
asleep = record {
  generation = some first_generation;
  config = object (record document { pending_runtime_gap_reconciliation = present sleep_intent });
}

prepare_runtime_gap-commit_runtime_gap_example :
    (prepare_runtime_gap calm_config first_generation library sleep
      (commit_runtime_gap calm_config first_generation library sleep_intent
        (100 ∷ [])
        no_faults
        asleep).1).0
    ≡ ok (no_gap (100 ∷ []))
unfolding commit_runtime_gap gap_commit finish_gap check_completion close_gap same_ids
    validate_pending_runtime_gap check_pending_gap validate_runtime_gap_request validate_session_id
    validate_opaque_id is_opaque_id has_dots byte_length utf8_length is_bad_timezone update_document
    enter ensure_current judge_generation read_document write_document validate validate_payload
    kind_matches
prepare_runtime_gap-commit_runtime_gap_example =
    prepare_runtime_gap-commit_runtime_gap calm_config first_generation library sleep sleep_intent
      (100 ∷ []) no_faults asleep refl refl refl

commit_runtime_gap-prepare_runtime_gap_example :
    (commit_runtime_gap calm_config first_generation library sleep_intent
      (100 ∷ [])
      no_faults
      (prepare_runtime_gap calm_config first_generation library sleep disk).1).0
    ≡ ok tt
unfolding prepare_runtime_gap gap_update gap_step begin_gap judge_gap open_gap runtime_gap_event
    validate_pending_runtime_gap check_pending_gap validate_runtime_gap_request validate_session_id
    validate_opaque_id is_opaque_id has_dots byte_length utf8_length is_bad_timezone update_document
    enter ensure_current judge_generation read_document write_document validate validate_payload
    kind_matches file_document
commit_runtime_gap-prepare_runtime_gap_example =
    commit_runtime_gap-prepare_runtime_gap calm_config first_generation library sleep no_faults disk
      document (pending_gap sleep_intent) sleep_intent old_session refl refl refl refl refl refl
      refl refl refl refl
