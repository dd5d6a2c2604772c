-- ===== src/Domain/Grant.antt =====
-- crates/chronicle-domain/src/config.rs: capture settings and disclosure grants. Identifiers are checked strings of at
-- most 160 bytes that are compared for equality and order only; a number stands for each.
use open_chronicle_next.Base.{
  ℕ, ◌*◌, String, Bool, true, false, ◌&&◌, ◌||◌, List, [], ◌∷◌, any, ltb, leb, ◌==◌,
}
use open_chronicle_next.Base.Outcome.{Result, refuse, require, ◌>>◌}
use open_chronicle_next.Domain.Time.{Instant, UtcRange, validate_range}
use open_chronicle_next.Domain.Version.{validate_schema_version}

abbrev pub max_disclosure_page_items : ℕ
max_disclosure_page_items = 100

abbrev pub max_disclosure_response_bytes : ℕ
max_disclosure_response_bytes = 4 * 1024 * 1024

abbrev pub max_disclosure_cumulative_bytes : ℕ
max_disclosure_cumulative_bytes = 1024 * 1024 * 1024

pub data CaptureCadence : Type 0 where
  thirty_seconds sixty_seconds : CaptureCadence

pub data ScreenshotRetention : Type 0 where
  one_hour twenty_four_hours seven_days thirty_days : ScreenshotRetention

pub data GrantTimeScope : Type 0 where
  absolute : UtcRange → GrantTimeScope
  rolling_horizon : ℕ → GrantTimeScope

pub data ContentClass : Type 0 where
  metadata ocr derived : ContentClass

abbrev pub class_eq : ContentClass → ContentClass → Bool
class_eq metadata metadata = true
class_eq ocr ocr = true
class_eq derived derived = true
class_eq _ _ = false

-- `content_classes.contains(&class)`.
abbrev pub has_class : ContentClass → List ContentClass → Bool
has_class c cs = any (class_eq c) cs

pub record DisclosureLimits : Type 0 where
  pub max_page_items : ℕ
  pub max_response_bytes : ℕ
  pub max_cumulative_bytes : ℕ

pub data GrantState : Type 0 where
  active revoked expired : GrantState

abbrev pub is_active : GrantState → Bool
is_active active = true
is_active _ = false

pub record DisclosureGrant : Type 0 where
  pub schema_version : String
  pub grant_id : ℕ
  pub client_id : ℕ
  pub receipt_id : ℕ
  pub time_scope : GrantTimeScope
  pub content_classes : List ContentClass
  pub created_at : Instant
  pub expires_at : Instant
  pub state : GrantState
  pub limits : DisclosureLimits
  pub disclosed_bytes : ℕ
  pub store_generation : ℕ

unfoldable pub is_active_at : DisclosureGrant → Instant → Bool
is_active_at g now = is_active g.state && leb g.created_at now && ltb now g.expires_at

unfoldable pub allows_content_at : DisclosureGrant → ContentClass → Instant → Bool
unfolding is_active_at
allows_content_at g class now = is_active_at g now && has_class class g.content_classes

unfoldable pub allows_full_ocr_at : DisclosureGrant → Instant → Bool
unfolding allows_content_at
allows_full_ocr_at g now = allows_content_at g ocr now

-- The loop that looks for each class among those after it.
abbrev pub repeats : List ContentClass → Bool
repeats [] = false
repeats (c ∷ cs) = has_class c cs || repeats cs

abbrev is_empty {ℓ} : {A : Type ℓ} → List A → Bool
is_empty [] = true
is_empty (_ ∷ _) = false

-- The disjunction of the limits check.
unfoldable pub limits_disagree : DisclosureLimits → ℕ → Bool
limits_disagree l disclosed =
    l.max_page_items == 0
    || ltb max_disclosure_page_items l.max_page_items
    || l.max_response_bytes == 0
    || ltb max_disclosure_response_bytes l.max_response_bytes
    || ltb l.max_cumulative_bytes l.max_response_bytes
    || ltb max_disclosure_cumulative_bytes l.max_cumulative_bytes
    || ltb l.max_cumulative_bytes disclosed

unfoldable pub validate_scope : GrantTimeScope → Result String (Unit {0})
unfolding validate_range
validate_scope (absolute range) = validate_range range
validate_scope (rolling_horizon seconds) =
    require (ltb 0 seconds) "rolling horizon must be greater than zero"

unfoldable pub validate : DisclosureGrant → Result String (Unit {0})
unfolding validate_scope limits_disagree
validate g = do
  validate_schema_version g.schema_version
  refuse (leb g.expires_at g.created_at) "grant expiry must follow creation"
  refuse (g.store_generation == 0) "grant requires a nonzero store generation"
  refuse (is_empty g.content_classes) "grant must explicitly name at least one content class"
  refuse (repeats g.content_classes) "grant content classes must be unique"
  refuse (limits_disagree g.limits g.disclosed_bytes) "grant disclosure limits are inconsistent"
  validate_scope g.time_scope
