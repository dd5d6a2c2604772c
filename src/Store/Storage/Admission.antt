-- ===== src/Store/Storage/Admission.antt =====
-- When a screenshot is admitted.
use open_chronicle_next.Base.{ℕ, ◌+◌, ◌^◌, ◌≤◌, ◌<◌, ◌≡◌, ◌↔◌, ◌⊎◌, true, arith}
use open_chronicle_next.Base.Outcome.{ok, is_ok}
use open_chronicle_next.Store.Storage.{
  ScreenshotStorageHealth, ScreenshotStorageLimits, healthy, warning, ensure_candidate_fits,
  required_bytes, evaluate_screenshot_storage, validate_limits, storage_state,
}

-- A candidate fits exactly where the minimum, the journal's reserve and its own bytes are available
-- and its bytes keep the images within their quota. With sizes of 64 bits, the checked sums refuse
-- nothing else.
pub ensure_candidate_fits_iff :
    (h : ScreenshotStorageHealth) (candidate : ℕ)
    → h.available_bytes < 2 ^ 64
    → h.managed_image_quota_bytes < 2 ^ 64
    → (is_ok (ensure_candidate_fits h candidate) ≡ true) ↔ (
        (h.minimum_free_bytes + h.journal_reserve_bytes + candidate ≤ h.available_bytes)
        × (h.managed_image_bytes + candidate ≤ h.managed_image_quota_bytes))
unfolding ensure_candidate_fits required_bytes
ensure_candidate_fits_iff h candidate available quota = ground arith

-- Where the storage has been evaluated and a candidate that is not empty fits, the state is healthy
-- or a warning: a blocked state admits no screenshot.
pub evaluate_screenshot_storage-ensure_candidate_fits :
    (available managed : ℕ) (limits : ScreenshotStorageLimits) (h : ScreenshotStorageHealth)
    (candidate : ℕ)
    → evaluate_screenshot_storage available managed limits ≡ ok h
    → is_ok (ensure_candidate_fits h candidate) ≡ true
    → 0 < candidate
    → (h.state ≡ healthy) ⊎ (h.state ≡ warning)
unfolding evaluate_screenshot_storage validate_limits storage_state ensure_candidate_fits
    required_bytes
evaluate_screenshot_storage-ensure_candidate_fits available managed limits h candidate evaluated
      fits positive =
    ground arith
