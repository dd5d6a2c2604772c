-- ===== src/Store/Receipts/Document.antt =====
-- crates/chronicle-store/src/receipts.rs: the receipt document and its validation. A set that a
-- loop fills is the list of what it has met.
use open_chronicle_next.Base.{
  ℕ, String, Bool, true, ◌&&◌, ◌||◌, not, List, [], ◌∷◌, length, any, contains, str_eq, ltb, ◌==◌,
}
use open_chronicle_next.Base.Outcome.{Result, ok, map_err, refuse, ◌>>◌}
use open_chronicle_next.Domain.Time.{Instant}
use open_chronicle_next.Domain.Grant.{DisclosureGrant}
use open_chronicle_next.Domain.Grant
use open_chronicle_next.Domain.Query.{QueryOperationKind}
use open_chronicle_next.Store.Errors.{StoreError, invalid_path}

abbrev pub max_active_cursors : ℕ
max_active_cursors = 512

abbrev pub max_derived_write_receipts : ℕ
max_derived_write_receipts = 4096

abbrev pub cursor_lifetime_seconds : ℕ
cursor_lifetime_seconds = 3600

pub record DisclosureCursorReceipt : Type 0 where
  pub token : String
  pub grant_id : ℕ
  pub client_id : ℕ
  pub operation : QueryOperationKind
  pub scope_digest : String
  pub position : String
  pub expires_at : Instant
  pub store_generation : ℕ

pub record DerivedWriteReceipt : Type 0 where
  pub request_id : ℕ
  pub grant_id : ℕ
  pub client_id : ℕ
  pub artifact_id : ℕ
  pub revision_id : ℕ
  pub store_generation : ℕ
  pub committed_at : Instant

pub record DisclosureReceiptDocument : Type 0 where
  pub schema_version : String
  pub updated_at : Instant
  pub grants : List DisclosureGrant
  pub cursors : List DisclosureCursorReceipt
  pub derived_writes : List DerivedWriteReceipt

-- `DisclosureReceiptDocument::empty`.
abbrev pub empty : Instant → DisclosureReceiptDocument
empty now = record {
  schema_version = "1.0";
  updated_at = now;
  grants = [];
  cursors = [];
  derived_writes = [];
}

-- The loop of `grant.validate()?`.
unfoldable pub validate_grants : List DisclosureGrant → Result StoreError (Unit {0})
validate_grants [] = ok tt
validate_grants (g ∷ gs) = do map_err invalid_path (Grant.validate g); validate_grants gs

-- No grant repeats a grant identifier or a receipt identifier of those met before it.
unfoldable pub grants_distinct : List ℕ → List ℕ → List DisclosureGrant → Bool
grants_distinct ids receipts [] = true
grants_distinct ids receipts (g ∷ gs) =
    not (contains g.grant_id ids || contains g.receipt_id receipts)
    && grants_distinct (g.grant_id ∷ ids) (g.receipt_id ∷ receipts) gs

abbrev cursor_malformed : DisclosureCursorReceipt → Bool
cursor_malformed c =
    str_eq c.token "" || str_eq c.scope_digest "" || str_eq c.position "" || c.store_generation == 0

unfoldable pub cursors_valid : List String → List DisclosureCursorReceipt → Bool
cursors_valid tokens [] = true
cursors_valid tokens (c ∷ cs) =
    not (cursor_malformed c || any (str_eq c.token) tokens) && cursors_valid (c.token ∷ tokens) cs

unfoldable pub writes_valid : List ℕ → List DerivedWriteReceipt → Bool
writes_valid ids [] = true
writes_valid ids (w ∷ ws) =
    not (w.store_generation == 0 || contains w.request_id ids)
    && writes_valid (w.request_id ∷ ids) ws

-- `DisclosureReceiptDocument::validate`.
unfoldable pub validate : DisclosureReceiptDocument → Result StoreError (Unit {0})
validate d = do
  refuse (not (str_eq d.schema_version "1.0"))
      (invalid_path "unsupported disclosure receipt version")
  validate_grants d.grants
  refuse (not (grants_distinct [] [] d.grants))
      (invalid_path "disclosure receipt contains duplicate grant or receipt IDs")
  refuse (not (cursors_valid [] d.cursors))
      (invalid_path "disclosure receipt contains an invalid cursor")
  refuse (ltb max_derived_write_receipts (length d.derived_writes))
      (invalid_path "derived-write receipt limit exceeded")
  refuse (not (writes_valid [] d.derived_writes))
      (invalid_path "disclosure receipt contains an invalid derived-write receipt")
