-- ===== src/Engine/Policy/Scope.antt =====
-- crates/chronicle-engine/src/policy.rs: `authorize_query` and the scope that a cursor is bound to.
use open_chronicle_next.Base.{
  ℕ, ◌-◌, ◌*◌, String, Bool, true, false, ◌&&◌, ◌||◌, not, Option, none, some, List, [], ◌∷◌, ◌++◌,
  ltb, min, max, if◌then◌else◌,
}
use open_chronicle_next.Base.Outcome.{Result, ok, refuse, ok_or, map_err, ◌>>=◌, ◌>>◌}
use open_chronicle_next.Domain.Time.{Instant, UtcRange, seconds, validate_range}
use open_chronicle_next.Domain.Grant.{
  DisclosureGrant, ContentClass, metadata, ocr, derived, has_class,
}
use open_chronicle_next.Domain.Query.{QueryOperation, QueryOperationKind, ActivityFilter, kind}
use open_chronicle_next.Engine.Policy.Align.{
  PolicyError, content_denied, range_denied, range_limit, invalid_range, allowed_range,
  align_inward,
}

abbrev pub max_query_range_seconds : ℕ
max_query_range_seconds = 31 * 24 * 60 * 60

-- `GetArtifact` and `ListDerived`.
abbrev pub reads_derived : QueryOperation → Bool
reads_derived (QueryOperation.get_artifact _ _) = true
reads_derived (QueryOperation.list_derived _ _) = true
reads_derived _ = false

abbrev pub searches : QueryOperation → Bool
searches (QueryOperation.search_activity _ _ _ _) = true
searches _ = false

-- Whether the result is to include OCR text, where the grant has the class or not.
abbrev pub includes_ocr : Bool → QueryOperation → Bool
includes_ocr granted (QueryOperation.search_activity _ _ include_ocr _) = include_ocr
includes_ocr granted (QueryOperation.build_context_packet _ include_ocr _) = include_ocr
includes_ocr granted (QueryOperation.read_chunk _) = granted
includes_ocr granted (QueryOperation.get_event _) = granted
includes_ocr granted (QueryOperation.inspect_moment _) = granted
includes_ocr granted (QueryOperation.supporting_evidence _ _) = granted
includes_ocr granted _ = false

-- `authorize_query_content`.
unfoldable pub authorize_query_content :
    DisclosureGrant → QueryOperation → Result PolicyError (Bool × Bool)
authorize_query_content g operation = do
  refuse (not (has_class metadata g.content_classes)) (content_denied metadata)
  refuse (reads_derived operation && not (has_class derived g.content_classes))
      (content_denied derived)
  let include_ocr = includes_ocr (has_class ocr g.content_classes) operation
  refuse ((searches operation || include_ocr) && not (has_class ocr g.content_classes))
      (content_denied ocr)
  ok (searches operation, include_ocr)

-- `requested_page_limit`.
abbrev pub requested_page_limit : QueryOperation → Option ℕ
requested_page_limit (QueryOperation.list_chunks _ page) = some page.limit
requested_page_limit (QueryOperation.search_activity _ _ _ page) = some page.limit
requested_page_limit (QueryOperation.supporting_evidence _ page) = some page.limit
requested_page_limit (QueryOperation.list_derived _ page) = some page.limit
requested_page_limit _ = none

abbrev pub operation_requires_full_range : QueryOperationKind → Bool
operation_requires_full_range QueryOperationKind.read_chunk = true
operation_requires_full_range QueryOperationKind.get_event = true
operation_requires_full_range QueryOperationKind.inspect_moment = true
operation_requires_full_range QueryOperationKind.supporting_evidence = true
operation_requires_full_range QueryOperationKind.get_artifact = true
operation_requires_full_range _ = false

-- What is digested of an operation: all of it but its page.
pub data Normalized : Type 0 where
  filtered : ActivityFilter → Normalized
  searched : ActivityFilter → String → Bool → Normalized
  supported : ℕ → Normalized
  ranged : UtcRange → Normalized
  whole : QueryOperation → Normalized

abbrev pub normalized : QueryOperation → Normalized
normalized (QueryOperation.list_chunks filter _) = filtered filter
normalized (QueryOperation.search_activity filter query include_ocr _) =
    searched filter query include_ocr
normalized (QueryOperation.supporting_evidence chunk _) = supported chunk
normalized (QueryOperation.list_derived range _) = ranged range
normalized other = whole other

pub record CursorScope : Type 0 where
  pub operation : QueryOperationKind
  pub scope : Normalized
  pub effective_ranges : List UtcRange
  pub content_classes : List ContentClass

pub record PolicyDecision : Type 0 where
  pub requested_ranges : List UtcRange
  pub effective_ranges : List UtcRange
  pub content_classes : List ContentClass
  pub include_ocr : Bool
  pub page_limit : Option ℕ
  pub cursor_scope_digest : String

-- `limit.min(max_page_items)`, where a limit is given.
abbrev pub capped : ℕ → Option ℕ → Option ℕ
capped most none = none
capped most (some limit) = some (min limit most)

-- The classes that a result may contain.
abbrev pub classes_of : QueryOperation → Bool → List ContentClass
classes_of operation uses_ocr =
    (if reads_derived operation then metadata ∷ derived ∷ [] else metadata ∷ [])
    ++ (if uses_ocr then ocr ∷ [] else [])

-- `last` is the last second that chrono can represent.
module _ (last : ℕ) where
  -- One round of the loop over the requested ranges.
  unfoldable pub clip : UtcRange → UtcRange → Result PolicyError UtcRange
  clip allowed requested = do
    map_err (λ _. invalid_range) (validate_range requested)
    found ← align_inward last (max requested.start allowed.start) (min requested.end allowed.end)
    aligned ← ok_or found range_denied
    refuse (ltb (seconds max_query_range_seconds) (aligned.end - aligned.start)) range_limit
    ok aligned

  unfoldable pub clip_all : UtcRange → List UtcRange → Result PolicyError (List UtcRange)
  clip_all allowed [] = ok []
  clip_all allowed (r ∷ rs) = do
    effective ← clip allowed r
    others ← clip_all allowed rs
    ok (effective ∷ others)

-- `digest` is what the JSON and hash libraries give for a scope.
module _ (digest : CursorScope → Option String) (last : ℕ) where
  -- `scope_digest`.
  unfoldable pub scope_digest :
      QueryOperation → List UtcRange → List ContentClass → Result PolicyError String
  scope_digest operation ranges classes =
      ok_or
        (digest (record {
          operation = kind operation;
          scope = normalized operation;
          effective_ranges = ranges;
          content_classes = classes;
        }))
        invalid_range

  -- `authorize_query`.
  unfoldable pub authorize_query :
      DisclosureGrant → QueryOperation → List UtcRange → Instant → Result PolicyError PolicyDecision
  authorize_query g operation requested now = do
    ocr_use ← authorize_query_content g operation
    allowed ← allowed_range g now
    effective ← clip_all last allowed requested
    let classes = classes_of operation (ocr_use.0 || ocr_use.1)
    cursor_scope ← scope_digest operation effective classes
    ok (record {
      requested_ranges = requested;
      effective_ranges = effective;
      content_classes = classes;
      include_ocr = ocr_use.1;
      page_limit = capped g.limits.max_page_items (requested_page_limit operation);
      cursor_scope_digest = cursor_scope;
    })
