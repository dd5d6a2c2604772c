-- ===== src/Store/Errors.antt =====
-- `StoreError` and the fault injector of crates/chronicle-store/src/lib.rs. Errors of the operating
-- system, of JSON and of SQLite carry their text. Two outcomes that are no error values in Rust end
-- a call here as well: `aborted`, the process stopped by a fault, and `panicked`, an index out of
-- range.
use open_chronicle_next.Base.{ℕ, String, Bool, false, ◌&&◌, Option, none, some, ◌==◌}
use open_chronicle_next.Base.{if◌then◌else◌}
use open_chronicle_next.Base.Outcome.{Result, ok, err}

pub data FaultPoint : Type 0 where
  after_journal_append after_journal_sync before_journal_manifest_update : FaultPoint
  after_row_insert after_cursor_update after_current_pointer_update : FaultPoint
  after_watermark_update before_transaction_commit after_transaction_commit : FaultPoint
  after_artifact_rename after_artifact_directory_sync after_provisional_image_sync : FaultPoint
  after_observation_append after_image_promotion after_image_promotion_directory_sync : FaultPoint
  after_lifecycle_completion after_delete_request after_image_unlink : FaultPoint
  after_image_unlink_directory_sync after_delete_completion after_repair_archive : FaultPoint
  after_repair_successor after_repair_original_unlink after_repair_marker : FaultPoint

-- The place of a fault point in the declaration, by which two are compared.
fault_rank : FaultPoint → ℕ
fault_rank after_journal_append = 0
fault_rank after_journal_sync = 1
fault_rank before_journal_manifest_update = 2
fault_rank after_row_insert = 3
fault_rank after_cursor_update = 4
fault_rank after_current_pointer_update = 5
fault_rank after_watermark_update = 6
fault_rank before_transaction_commit = 7
fault_rank after_transaction_commit = 8
fault_rank after_artifact_rename = 9
fault_rank after_artifact_directory_sync = 10
fault_rank after_provisional_image_sync = 11
fault_rank after_observation_append = 12
fault_rank after_image_promotion = 13
fault_rank after_image_promotion_directory_sync = 14
fault_rank after_lifecycle_completion = 15
fault_rank after_delete_request = 16
fault_rank after_image_unlink = 17
fault_rank after_image_unlink_directory_sync = 18
fault_rank after_delete_completion = 19
fault_rank after_repair_archive = 20
fault_rank after_repair_successor = 21
fault_rank after_repair_original_unlink = 22
fault_rank after_repair_marker = 23

pub data StoreError : Type 0 where
  invalid_path unsafe_permissions io json sqlite contract lock_timeout : String → StoreError
  wrong_owner capture_owner_active maintenance_in_progress : StoreError
  corrupt_record : String → ℕ → String → StoreError
  screenshot_free_space : ℕ → ℕ → StoreError
  screenshot_image_quota : ℕ → ℕ → ℕ → StoreError
  stable_id_conflict : ℕ → StoreError
  artifact_conflict invalid_artifact_transition invalid_evidence_reference : StoreError
  grant_already_exists grant_not_found grant_client_mismatch grant_inactive : StoreError
  cursor_not_found cursor_scope_mismatch disclosure_byte_limit : StoreError
  stale_generation : ℕ → ℕ → StoreError
  sqlite_identity repair_incomplete : String → StoreError
  repair_not_confirmed retention_not_confirmed retention_preview_stale : StoreError
  injected_fault : FaultPoint → StoreError
  aborted panicked : StoreError

pub record FaultInjector : Type 0 where
  pub point : Option FaultPoint
  pub abort_process : Bool
  pub occurrence : ℕ

abbrev pub no_faults : FaultInjector
no_faults = record { point = none; abort_process = false; occurrence = 0 }

abbrev is_point : Option FaultPoint → FaultPoint → Bool
unfolding fault_rank
is_point none p = false
is_point (some q) p = fault_rank q == fault_rank p

unfoldable pub check_occurrence : FaultInjector → FaultPoint → ℕ → Result StoreError (Unit {0})
unfolding is_point fault_rank
check_occurrence f point occurrence =
    if is_point f.point point && f.occurrence == occurrence
    then (if f.abort_process then err aborted else err (injected_fault point))
    else ok tt

unfoldable pub check : FaultInjector → FaultPoint → Result StoreError (Unit {0})
unfolding check_occurrence
check f point = check_occurrence f point 0
