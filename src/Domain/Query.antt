-- ===== src/Domain/Query.antt =====
-- crates/chronicle-domain/src/query.rs: the requests of the query contract.
use open_chronicle_next.Base.{ℕ, String, Bool, Option, List, ltb, ◌==◌}
use open_chronicle_next.Base.Outcome.{Result, ok, refuse, require, ◌>>◌}
use open_chronicle_next.Domain.Time.{Instant, UtcRange, validate_range}
use open_chronicle_next.Domain.Version.{validate_schema_version}
use open_chronicle_next.Domain.Event.{EvidenceState}

pub record PageRequest : Type 0 where
  pub cursor : Option String
  pub limit : ℕ

pub record ActivityFilter : Type 0 where
  pub range : UtcRange
  pub application_bundle_id : Option String
  pub window_text : Option String
  pub authorized_domain : Option String
  pub evidence_states : List EvidenceState

pub data QueryOperationKind : Type 0 where
  status schemas list_chunks read_chunk get_event get_artifact : QueryOperationKind
  search_activity inspect_moment statistics compare_periods : QueryOperationKind
  supporting_evidence build_context_packet list_derived : QueryOperationKind

-- The place of a kind in the declaration, by which two are compared.
abbrev kind_rank : QueryOperationKind → ℕ
kind_rank status = 0
kind_rank schemas = 1
kind_rank list_chunks = 2
kind_rank read_chunk = 3
kind_rank get_event = 4
kind_rank get_artifact = 5
kind_rank search_activity = 6
kind_rank inspect_moment = 7
kind_rank statistics = 8
kind_rank compare_periods = 9
kind_rank supporting_evidence = 10
kind_rank build_context_packet = 11
kind_rank list_derived = 12

abbrev pub kind_eq : QueryOperationKind → QueryOperationKind → Bool
kind_eq a b = kind_rank a == kind_rank b

pub data QueryOperation : Type 0 where
  status schemas : QueryOperation
  list_chunks : ActivityFilter → PageRequest → QueryOperation
  read_chunk : ℕ → QueryOperation
  get_event : ℕ → QueryOperation
  get_artifact : ℕ → Option ℕ → QueryOperation
  search_activity : ActivityFilter → String → Bool → PageRequest → QueryOperation
  inspect_moment : Instant → QueryOperation
  statistics : ActivityFilter → QueryOperation
  compare_periods : UtcRange → UtcRange → QueryOperation
  supporting_evidence : ℕ → PageRequest → QueryOperation
  build_context_packet : ActivityFilter → Bool → ℕ → QueryOperation
  list_derived : UtcRange → PageRequest → QueryOperation

-- `QueryOperation::kind`.
abbrev pub kind : QueryOperation → QueryOperationKind
kind QueryOperation.status = QueryOperationKind.status
kind QueryOperation.schemas = QueryOperationKind.schemas
kind (QueryOperation.list_chunks _ _) = QueryOperationKind.list_chunks
kind (QueryOperation.read_chunk _) = QueryOperationKind.read_chunk
kind (QueryOperation.get_event _) = QueryOperationKind.get_event
kind (QueryOperation.get_artifact _ _) = QueryOperationKind.get_artifact
kind (QueryOperation.search_activity _ _ _ _) = QueryOperationKind.search_activity
kind (QueryOperation.inspect_moment _) = QueryOperationKind.inspect_moment
kind (QueryOperation.statistics _) = QueryOperationKind.statistics
kind (QueryOperation.compare_periods _ _) = QueryOperationKind.compare_periods
kind (QueryOperation.supporting_evidence _ _) = QueryOperationKind.supporting_evidence
kind (QueryOperation.build_context_packet _ _ _) = QueryOperationKind.build_context_packet
kind (QueryOperation.list_derived _ _) = QueryOperationKind.list_derived

pub record QueryRequest : Type 0 where
  pub schema_version : String
  pub request_id : ℕ
  pub client_id : ℕ
  pub grant_id : ℕ
  pub store_generation : ℕ
  pub operation : QueryOperation

unfoldable pub validate_page : PageRequest → Result String (Unit {0})
validate_page page = require (ltb 0 page.limit) "page limit must be greater than zero"

-- The `match` of `QueryRequest::validate`.
unfoldable pub validate_operation : QueryOperation → Result String (Unit {0})
unfolding validate_page validate_range
validate_operation (QueryOperation.list_chunks filter page) = do
  validate_range filter.range
  validate_page page
validate_operation (QueryOperation.search_activity filter query include_ocr page) = do
  validate_range filter.range
  validate_page page
validate_operation (QueryOperation.statistics filter) = validate_range filter.range
validate_operation (QueryOperation.build_context_packet filter include_ocr max_bytes) = do
  validate_range filter.range
  require (ltb 0 max_bytes) "context packet max_bytes must be greater than zero"
validate_operation (QueryOperation.compare_periods first second) = do
  validate_range first
  validate_range second
validate_operation (QueryOperation.supporting_evidence chunk page) = validate_page page
validate_operation (QueryOperation.list_derived range page) = do
  validate_range range
  validate_page page
validate_operation QueryOperation.status = ok tt
validate_operation QueryOperation.schemas = ok tt
validate_operation (QueryOperation.read_chunk chunk) = ok tt
validate_operation (QueryOperation.get_event event) = ok tt
validate_operation (QueryOperation.get_artifact artifact revision) = ok tt
validate_operation (QueryOperation.inspect_moment at) = ok tt

-- `QueryRequest::validate`.
unfoldable pub validate : QueryRequest → Result String (Unit {0})
unfolding validate_operation
validate r = do
  validate_schema_version r.schema_version
  refuse (r.store_generation == 0) "query request requires a nonzero store generation"
  validate_operation r.operation
