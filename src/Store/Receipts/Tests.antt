-- ===== src/Store/Receipts/Tests.antt =====
-- One grant on disk, and a query, a cursor and a derived write under it.
use open_chronicle_next.Base.{
  any, ◌+◌, ◌≤◌, ◌≡◌, ◌≢◌, refl, true, ◌&&◌, some, none, [], ◌∷◌, arith, ◌==◌,
}
use open_chronicle_next.Base.Outcome.{ok, is_ok}
use open_chronicle_next.Domain.Time.{seconds}
use open_chronicle_next.Domain.Version.{validate_schema_version}
use open_chronicle_next.Domain.Grant.{
  DisclosureGrant, GrantState, metadata, ocr, rolling_horizon, active, revoked, is_active_at,
  is_active, validate_scope, limits_disagree,
}
use open_chronicle_next.Domain.Grant
use open_chronicle_next.Domain.Query.{QueryOperationKind}
use open_chronicle_next.Store.Errors.{no_faults, check, check_occurrence}
use open_chronicle_next.Store.World.{calm, load_generation, atomic_write_with_boundary}
use open_chronicle_next.Store.Receipts.Document.{
  DisclosureReceiptDocument, DisclosureCursorReceipt, validate_grants, grants_distinct,
  cursors_valid, writes_valid, empty,
}
use open_chronicle_next.Store.Receipts.Document
use open_chronicle_next.Store.Receipts.Ledger.{
  GrantQuerySession, install, revoke, begin_query, load, persist, update_first, position, opened,
  health_summary, McpHealthSummary, zero_summary, tally, tally_grant,
}
use open_chronicle_next.Store.Receipts.Session.{
  current, resolve_cursor, stage_cursor, stage_disclosed_bytes, stage_derived_write,
  derived_write_committed, prepare_commit, with_bytes, new_cursor, new_write,
}
use open_chronicle_next.Store.Receipts.Commit.{commit_with_faults}
use open_chronicle_next.Store.Receipts.Calls.{Files, lookup, grants_of}
use open_chronicle_next.Store.Receipts.Lifecycle.{Descends}
use open_chronicle_next.Store.Receipts.Staging.{Staged, fresh, bytes}
use open_chronicle_next.Store.Receipts.Trace.{Reach, here, next, commits, Reach-Descends}
use open_chronicle_next.Store.Receipts.Soundness.{sound, Reach-loads}
use open_chronicle_next.Store.Receipts.Install.{begin_query-install}
use open_chronicle_next.Store.Receipts.Calls.{lookup, on_disk}
use open_chronicle_next.Store.Receipts.Cursors.{
  is_issued, resolve_cursor-begin_query, resolve-stage_cursor,
}
use open_chronicle_next.Store.Receipts.Writes.{retried, committed-stage_derived_write}
use open_chronicle_next.Store.Receipts.Health.{Counted, health_summary-Counted}
use open_chronicle_next.Store.Receipts.Revocation.{closed_stays_closed, revoke-final}
use open_chronicle_next.Store.Receipts.Budget.{served, served-le-limit}

abbrev grant_7 : DisclosureGrant
grant_7 = record {
  schema_version = "1.0";
  grant_id = 7;
  client_id = 3;
  receipt_id = 9;
  time_scope = rolling_horizon 86400;
  content_classes = metadata ∷ ocr ∷ [];
  created_at = seconds 100;
  expires_at = seconds 1_000_000;
  state = active;
  limits = record { max_page_items = 10; max_response_bytes = 1000; max_cumulative_bytes = 5000 };
  disclosed_bytes = 0;
  store_generation = 1;
}

abbrev blank : Files
blank = record {
  generation = some (record { schema_version = 1; generation = 1; epoch_id = 0 });
  receipts = none;
}

abbrev document_7 : DisclosureReceiptDocument
document_7 = record (empty (seconds 200)) { grants = grant_7 ∷ [] }

abbrev files : Files
files = record blank { receipts = some document_7 }

abbrev query : GrantQuerySession
query = record {
  document = document_7;
  grant_index = 0;
  original_disclosed_bytes = 0;
  now = seconds 300;
}

abbrev charged : GrantQuerySession
charged = with_bytes query grant_7 600

abbrev after_query : Files
after_query = record files {
  receipts = some (record (charged.document) { updated_at = seconds 300 });
}

files-sound : sound files ≡ true
unfolding Document.validate validate_grants grants_distinct cursors_valid writes_valid
    Grant.validate validate_scope limits_disagree validate_schema_version
files-sound = refl

begins_query : (begin_query calm 7 3 1 (seconds 300) files).0 ≡ ok query
unfolding begin_query opened load load_generation is_active_at position Document.validate
    validate_grants grants_distinct cursors_valid writes_valid Grant.validate validate_scope
    limits_disagree validate_schema_version
begins_query = refl

charges : stage_disclosed_bytes query 600 ≡ ok charged
unfolding stage_disclosed_bytes current
charges = refl

commits_charge : (commit_with_faults calm charged no_faults files).1 ≡ after_query
unfolding commit_with_faults prepare_commit current atomic_write_with_boundary check
    check_occurrence Document.validate validate_grants grants_distinct cursors_valid writes_valid
    Grant.validate validate_scope limits_disagree validate_schema_version
commits_charge = refl

staged : Staged query charged
staged = bytes fresh 600 charges

-- The query begins, has 600 bytes staged and commits.
trace : Reach files after_query
trace = next here (commits calm 7 3 1 (seconds 300) no_faults begins_query staged commits_charge)

served-le-limit_example :
    grant_7.disclosed_bytes + served 7 trace ≤ grant_7.limits.max_cumulative_bytes
served-le-limit_example = served-le-limit 7 grant_7 trace files-sound refl

Reach-loads_example : is_ok (load calm (seconds 400) after_query).0 ≡ true
Reach-loads_example = Reach-loads (seconds 400) trace files-sound

Reach-Descends_example :
    (g' : DisclosureGrant) × (lookup 7 after_query ≡ some g') × Descends grant_7 g'
Reach-Descends_example = Reach-Descends 7 grant_7 refl trace

revokes_grant : (revoke calm 7 1 (seconds 300) files).0 ≡ ok tt
unfolding revoke persist load load_generation update_first atomic_write_with_boundary
    Document.validate validate_grants grants_distinct cursors_valid writes_valid Grant.validate
    validate_scope limits_disagree validate_schema_version
revokes_grant = refl

revoke-final_example :
    (begin_query calm 7 3 1 (seconds 400) (revoke calm 7 1 (seconds 300) files).1).0 ≢ ok query
revoke-final_example =
    revoke-final calm 7 1 (seconds 300) files revokes_grant here calm 3 1 (seconds 400) query

abbrev expired_7 : DisclosureGrant
expired_7 = record grant_7 { state = GrantState.expired }

abbrev expired_files : Files
expired_files = record files { receipts = some (record document_7 { grants = expired_7 ∷ [] }) }

closed_stays_closed_example : (begin_query calm 7 3 1 (seconds 400) expired_files).0 ≢ ok query
closed_stays_closed_example =
    closed_stays_closed 7 expired_7 refl refl here calm 3 1 (seconds 400) query

installs_grant : (install calm grant_7 (seconds 200) blank).0 ≡ ok tt
unfolding install persist load load_generation atomic_write_with_boundary Document.validate
    validate_grants grants_distinct cursors_valid writes_valid Grant.validate validate_scope
    limits_disagree validate_schema_version
installs_grant = refl

begin_query-install_example :
    is_ok (begin_query calm 7 3 1 (seconds 500) (install calm grant_7 (seconds 200) blank).1).0
    ≡ true
begin_query-install_example =
    begin_query-install calm grant_7 (seconds 200) (seconds 500) blank installs_grant (omega arith)
      (omega arith)

-- The second query of the client, after the first has committed a cursor and a derived write.
abbrev cursor_a : DisclosureCursorReceipt
cursor_a =
    new_cursor grant_7 "cursor-a" QueryOperationKind.list_chunks "digest" "page-2" (seconds 300)

abbrev paged : GrantQuerySession
paged = record query { document = record document_7 { cursors = cursor_a ∷ [] } }

abbrev resumed : GrantQuerySession
resumed = record paged {
  document = record (paged.document) { updated_at = seconds 300 };
  now = seconds 400;
}

stages_cursor :
    stage_cursor query "a" QueryOperationKind.list_chunks "digest" "page-2" ≡ ok ("cursor-a", paged)
unfolding stage_cursor current
stages_cursor = refl

commits_cursor : is_ok (commit_with_faults calm paged no_faults files).0 ≡ true
unfolding commit_with_faults prepare_commit current atomic_write_with_boundary check
    check_occurrence Document.validate validate_grants grants_distinct cursors_valid writes_valid
    Grant.validate validate_scope limits_disagree validate_schema_version
commits_cursor = refl

resumes :
    (begin_query calm 7 3 1 (seconds 400) (commit_with_faults calm paged no_faults files).1).0
    ≡ ok resumed
unfolding begin_query opened load load_generation is_active_at position commit_with_faults
    prepare_commit current atomic_write_with_boundary check check_occurrence Document.validate
    validate_grants grants_distinct cursors_valid writes_valid Grant.validate validate_scope
    limits_disagree validate_schema_version
resumes = refl

holds_grant : current query ≡ ok grant_7
unfolding current
holds_grant = refl

resolve-stage_cursor_example :
    resolve_cursor resumed "cursor-a" QueryOperationKind.list_chunks "digest" ≡ ok "page-2"
resolve-stage_cursor_example =
    resolve-stage_cursor calm calm query paged resumed files no_faults "a"
      QueryOperationKind.list_chunks "digest" "page-2" "cursor-a" grant_7 (seconds 400) holds_grant
      refl stages_cursor commits_cursor resumes (omega arith) (omega arith)

resolves : resolve_cursor resumed "cursor-a" QueryOperationKind.list_chunks "digest" ≡ ok "page-2"
unfolding resolve_cursor current
resolves = refl

resolve_cursor-begin_query_example :
    (g : DisclosureGrant) × (lookup 7 (commit_with_faults calm paged no_faults files).1 ≡ some g)
    × (g.client_id ≡ 3)
    × (is_active_at g (seconds 400) ≡ true)
    × (any
          (is_issued "cursor-a" 7 3 1 QueryOperationKind.list_chunks "digest" "page-2"
            (seconds 400))
          (on_disk (seconds 400) (commit_with_faults calm paged no_faults files).1).cursors
        ≡ true)
resolve_cursor-begin_query_example =
    resolve_cursor-begin_query calm 7 3 1 (seconds 400)
      (commit_with_faults calm paged no_faults files).1 resumed "cursor-a"
      QueryOperationKind.list_chunks "digest" "page-2" resumes resolves

abbrev written : GrantQuerySession
written = record query {
  document = record document_7 { derived_writes = new_write query grant_7 40 41 42 ∷ [] };
}

abbrev retrying : GrantQuerySession
retrying = record written {
  document = record (written.document) { updated_at = seconds 300 };
  now = seconds 400;
}

stages_write : stage_derived_write query 40 41 42 ≡ ok written
unfolding stage_derived_write current
stages_write = refl

commits_write : is_ok (commit_with_faults calm written no_faults files).0 ≡ true
unfolding commit_with_faults prepare_commit current atomic_write_with_boundary check
    check_occurrence Document.validate validate_grants grants_distinct cursors_valid writes_valid
    Grant.validate validate_scope limits_disagree validate_schema_version
commits_write = refl

retries :
    (begin_query calm 7 3 1 (seconds 400) (commit_with_faults calm written no_faults files).1).0
    ≡ ok retrying
unfolding begin_query opened load load_generation is_active_at position commit_with_faults
    prepare_commit current atomic_write_with_boundary check check_occurrence Document.validate
    validate_grants grants_distinct cursors_valid writes_valid Grant.validate validate_scope
    limits_disagree validate_schema_version
retries = refl

committed-stage_derived_write_example :
    derived_write_committed retrying 40 41 43 ≡ retried 40 (41 == 41 && 42 == 43)
committed-stage_derived_write_example =
    committed-stage_derived_write calm calm query written retrying files no_faults 40 41 42 grant_7
      (seconds 400) holds_grant stages_write commits_write retries 41 43

abbrev tallied : McpHealthSummary
tallied = record zero_summary { active_grants = 1 }

tallies : (health_summary calm (seconds 300) 1 files).0 ≡ ok tallied
unfolding health_summary load tally tally_grant is_active_at Document.validate validate_grants
    grants_distinct cursors_valid writes_valid Grant.validate validate_scope limits_disagree
    validate_schema_version
tallies = refl

health_summary-Counted_example : Counted (seconds 300) 1 tallied (grants_of files)
health_summary-Counted_example =
    health_summary-Counted (seconds 300) 1 calm files tallied tallies (omega arith)
