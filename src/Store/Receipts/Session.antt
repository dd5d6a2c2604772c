-- ===== src/Store/Receipts/Session.antt =====
-- crates/chronicle-store/src/receipts.rs: `GrantQuerySession`, a query or a derived write under an
-- open grant. The session's changes reach the disk only by `commit`.
use Prim.Native.String.{◌++◌ as text_append}
use open_chronicle_next.Base.{
  ℕ, ◌+◌, ◌^◌, String, Bool, true, false, ◌||◌, not, Option, none, some, [], ◌∷◌, ◌++◌, any, find,
  ltb, leb, ◌==◌, str_eq, get_elem?, set, length, min,
}
use open_chronicle_next.Base.Sort.{sort}
use open_chronicle_next.Base.Outcome.{Result, ok, ok_or, refuse, ◌>>=◌, ◌>>◌}
use open_chronicle_next.Domain.Time.{Instant, seconds}
use open_chronicle_next.Domain.Query.{QueryOperationKind, kind_eq}
use open_chronicle_next.Domain.Grant.{DisclosureGrant}
use open_chronicle_next.Store.Errors.{
  StoreError, FaultInjector, check, invalid_path, cursor_not_found, cursor_scope_mismatch,
  disclosure_byte_limit, stable_id_conflict, panicked, before_transaction_commit,
}
use open_chronicle_next.Store.Receipts.Document.{
  DisclosureReceiptDocument, DisclosureCursorReceipt, DerivedWriteReceipt, max_active_cursors,
  max_derived_write_receipts, cursor_lifetime_seconds,
}
use open_chronicle_next.Store.Receipts.Document
use open_chronicle_next.Store.Receipts.Ledger.{GrantQuerySession}

-- `GrantQuerySession::grant`: the index is in range unless the call panics.
unfoldable pub current : GrantQuerySession → Result StoreError DisclosureGrant
current s = ok_or (get_elem? s.document.grants s.grant_index) panicked

abbrev pub cursor_mismatch :
    DisclosureCursorReceipt → DisclosureGrant → QueryOperationKind → String → Instant → Bool
cursor_mismatch c g operation scope now =
    not (c.grant_id == g.grant_id)
    || not (c.client_id == g.client_id)
    || not (kind_eq c.operation operation)
    || not (str_eq c.scope_digest scope)
    || not (c.store_generation == g.store_generation)
    || leb c.expires_at now

-- `GrantQuerySession::resolve_cursor`.
unfoldable pub resolve_cursor :
    GrantQuerySession → String → QueryOperationKind → String → Result StoreError String
unfolding current
resolve_cursor s token operation scope = do
  c ← ok_or (find (λ c. str_eq c.token token) s.document.cursors) cursor_not_found
  g ← current s
  refuse (cursor_mismatch c g operation scope s.now) cursor_scope_mismatch
  ok c.position

-- The receipt that `stage_cursor` adds.
abbrev pub new_cursor :
    DisclosureGrant
    → String
    → QueryOperationKind
    → String
    → String
    → Instant
    → DisclosureCursorReceipt
new_cursor g token operation scope position now = record {
  token = token;
  grant_id = g.grant_id;
  client_id = g.client_id;
  operation = operation;
  scope_digest = scope;
  position = position;
  expires_at = min (now + seconds cursor_lifetime_seconds) g.expires_at;
  store_generation = g.store_generation;
}

-- `GrantQuerySession::stage_cursor`; `uuid` is what `Uuid::now_v7` gives.
unfoldable pub stage_cursor :
    GrantQuerySession
    → String
    → QueryOperationKind
    → String
    → String
    → Result StoreError (String × GrantQuerySession)
unfolding current
stage_cursor s uuid operation scope position = do
  refuse (leb max_active_cursors (length s.document.cursors))
      (invalid_path "active disclosure cursor limit reached")
  g ← current s
  let token = text_append "cursor-" uuid
  let cursors = s.document.cursors ++ new_cursor g token operation scope position s.now ∷ []
  ok (token, record s { document = record (s.document) { cursors = cursors } })

abbrev pub with_bytes : GrantQuerySession → DisclosureGrant → ℕ → GrantQuerySession
with_bytes s g disclosed = record s {
  document = record (s.document) {
    grants = set s.document.grants s.grant_index (record g { disclosed_bytes = disclosed });
  };
}

-- `GrantQuerySession::stage_disclosed_bytes`, with the sum checked in 64 bits.
unfoldable pub stage_disclosed_bytes : GrantQuerySession → ℕ → Result StoreError GrantQuerySession
unfolding current
stage_disclosed_bytes s response_bytes = do
  g ← current s
  refuse (ltb g.limits.max_response_bytes response_bytes) disclosure_byte_limit
  let disclosed = s.original_disclosed_bytes + response_bytes
  refuse (leb (2 ^ 64) disclosed) disclosure_byte_limit
  refuse (ltb g.limits.max_cumulative_bytes disclosed) disclosure_byte_limit
  ok (with_bytes s g disclosed)

abbrev pub write_mismatch : DerivedWriteReceipt → DisclosureGrant → ℕ → ℕ → Bool
write_mismatch r g artifact revision =
    not (r.grant_id == g.grant_id)
    || not (r.client_id == g.client_id)
    || not (r.store_generation == g.store_generation)
    || not (r.artifact_id == artifact)
    || not (r.revision_id == revision)

-- What `derived_write_committed` does with the receipt that it looks for.
unfoldable pub judge_receipt :
    GrantQuerySession → ℕ → ℕ → ℕ → Option DerivedWriteReceipt → Result StoreError Bool
unfolding current
judge_receipt s request artifact revision none = ok false
judge_receipt s request artifact revision (some r) = do
  g ← current s
  refuse (write_mismatch r g artifact revision) (stable_id_conflict request)
  ok true

-- `GrantQuerySession::derived_write_committed`.
unfoldable pub derived_write_committed : GrantQuerySession → ℕ → ℕ → ℕ → Result StoreError Bool
unfolding judge_receipt
derived_write_committed s request artifact revision =
    judge_receipt s request artifact revision
      (find (λ r. r.request_id == request) s.document.derived_writes)

abbrev pub new_write : GrantQuerySession → DisclosureGrant → ℕ → ℕ → ℕ → DerivedWriteReceipt
new_write s g request artifact revision = record {
  request_id = request;
  grant_id = g.grant_id;
  client_id = g.client_id;
  artifact_id = artifact;
  revision_id = revision;
  store_generation = g.store_generation;
  committed_at = s.now;
}

-- `GrantQuerySession::stage_derived_write`.
unfoldable pub stage_derived_write :
    GrantQuerySession → ℕ → ℕ → ℕ → Result StoreError GrantQuerySession
unfolding current
stage_derived_write s request artifact revision = do
  refuse (leb max_derived_write_receipts (length s.document.derived_writes))
      (invalid_path "derived-write receipt limit reached")
  refuse (any (λ r. r.request_id == request) s.document.derived_writes) (stable_id_conflict request)
  g ← current s
  let writes =
      sort (λ r. r.request_id)
        (s.document.derived_writes ++ new_write s g request artifact revision ∷ [])
  ok (record s { document = record (s.document) { derived_writes = writes } })

-- The part of `commit_with_faults` before the write: the dated document, once it is valid.
unfoldable pub prepare_commit :
    GrantQuerySession → FaultInjector → Result StoreError DisclosureReceiptDocument
unfolding check
prepare_commit s faults = do
  let dated = record (s.document) { updated_at = s.now }
  Document.validate dated
  check faults before_transaction_commit
  ok dated
