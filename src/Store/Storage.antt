-- ===== src/Store/Storage.antt =====
-- crates/chronicle-store/src/storage.rs: the limits of managed screenshots, the state of the storage
-- and the admission of a candidate. The sizes are 64-bit numbers, whose sums are checked.
pub mod Admission
mod Tests
use open_chronicle_next.Base.{
  ℕ, ◌+◌, ◌-◌, ◌^◌, Bool, Option, none, some, ltb, leb, ◌==◌, if◌then◌else◌,
}
use open_chronicle_next.Base.Outcome.{Result, ok, err, refuse, ok_or, ◌>>=◌, ◌>>◌}
use open_chronicle_next.Store.Errors.{
  StoreError, invalid_path, screenshot_free_space, screenshot_image_quota,
}

pub record ScreenshotStorageLimits : Type 0 where
  pub warning_free_bytes : ℕ
  pub minimum_free_bytes : ℕ
  pub managed_image_quota_bytes : ℕ
  pub journal_reserve_bytes : ℕ

-- `ScreenshotStorageLimits::validate`.
unfoldable pub validate_limits : ScreenshotStorageLimits → Result StoreError ScreenshotStorageLimits
validate_limits l = do
  refuse (ltb l.warning_free_bytes l.minimum_free_bytes)
      (invalid_path "storage warning threshold must not be below the hard floor")
  refuse (l.managed_image_quota_bytes == 0)
      (invalid_path "managed screenshot quota must be positive")
  ok l

pub data ScreenshotStorageState : Type 0 where
  healthy warning blocked_free_space blocked_image_quota : ScreenshotStorageState

pub record ScreenshotStorageHealth : Type 0 where
  pub managed_image_bytes : ℕ
  pub available_bytes : ℕ
  pub warning_free_bytes : ℕ
  pub minimum_free_bytes : ℕ
  pub managed_image_quota_bytes : ℕ
  pub journal_reserve_bytes : ℕ
  pub state : ScreenshotStorageState

-- `u64::checked_add`.
abbrev pub checked_add : ℕ → ℕ → Option ℕ
checked_add a b = if ltb (a + b) (2 ^ 64) then some (a + b) else none

-- The bytes that must be available for a candidate.
unfoldable pub required_bytes : ScreenshotStorageHealth → ℕ → Option ℕ
required_bytes h candidate = elim (checked_add h.minimum_free_bytes h.journal_reserve_bytes) [
  | none ↦ none
  | some required ↦ checked_add required candidate
]

-- `ScreenshotStorageHealth::ensure_candidate_fits`.
unfoldable pub ensure_candidate_fits : ScreenshotStorageHealth → ℕ → Result StoreError (Unit {0})
unfolding required_bytes
ensure_candidate_fits h candidate = do
  required ←
      ok_or (required_bytes h candidate) (screenshot_free_space h.available_bytes (2 ^ 64 - 1))
  refuse (ltb h.available_bytes required) (screenshot_free_space h.available_bytes required)
  prospective ←
      ok_or (checked_add h.managed_image_bytes candidate)
        (screenshot_image_quota h.managed_image_bytes candidate h.managed_image_quota_bytes)
  refuse (ltb h.managed_image_quota_bytes prospective)
      (screenshot_image_quota h.managed_image_bytes candidate h.managed_image_quota_bytes)

-- The state of `evaluate_screenshot_storage`.
unfoldable pub storage_state : ℕ → ℕ → ScreenshotStorageLimits → ScreenshotStorageState
storage_state available managed l =
    if leb l.managed_image_quota_bytes managed
    then blocked_image_quota
    else if ltb available l.minimum_free_bytes
    then blocked_free_space
    else if ltb available l.warning_free_bytes
    then warning
    else healthy

-- `evaluate_screenshot_storage`.
unfoldable pub evaluate_screenshot_storage :
    ℕ → ℕ → ScreenshotStorageLimits → Result StoreError ScreenshotStorageHealth
unfolding validate_limits storage_state
evaluate_screenshot_storage available managed given = do
  limits ← validate_limits given
  ok (record {
    managed_image_bytes = managed;
    available_bytes = available;
    warning_free_bytes = limits.warning_free_bytes;
    minimum_free_bytes = limits.minimum_free_bytes;
    managed_image_quota_bytes = limits.managed_image_quota_bytes;
    journal_reserve_bytes = limits.journal_reserve_bytes;
    state = storage_state available managed limits;
  })
