-- ===== src/Store/Storage/Tests.antt =====
-- A disk with five gibibytes available and a nearly full quota.
use open_chronicle_next.Base.{ℕ, ◌+◌, ◌*◌, ◌≤◌, ◌≡◌, ◌↔◌, ◌⊎◌, refl, true, arith}
use open_chronicle_next.Base.Outcome.{ok, is_ok}
use open_chronicle_next.Store.Storage.{
  ScreenshotStorageLimits, ScreenshotStorageHealth, healthy, warning, evaluate_screenshot_storage,
  validate_limits, storage_state, ensure_candidate_fits, required_bytes,
}
use open_chronicle_next.Store.Storage.Admission.{
  ensure_candidate_fits_iff, evaluate_screenshot_storage-ensure_candidate_fits,
}

abbrev gib : ℕ
gib = 1024 * 1024 * 1024

-- `ScreenshotStorageLimits::default`.
abbrev default_limits : ScreenshotStorageLimits
default_limits = record {
  warning_free_bytes = 4 * gib;
  minimum_free_bytes = 2 * gib;
  managed_image_quota_bytes = 20 * gib;
  journal_reserve_bytes = 4 * 1024 * 1024;
}

abbrev roomy : ScreenshotStorageHealth
roomy = record {
  managed_image_bytes = 19 * gib;
  available_bytes = 5 * gib;
  warning_free_bytes = 4 * gib;
  minimum_free_bytes = 2 * gib;
  managed_image_quota_bytes = 20 * gib;
  journal_reserve_bytes = 4 * 1024 * 1024;
  state = healthy;
}

evaluates : evaluate_screenshot_storage (5 * gib) (19 * gib) default_limits ≡ ok roomy
unfolding evaluate_screenshot_storage validate_limits storage_state
evaluates = refl

fits_candidate : is_ok (ensure_candidate_fits roomy 1_000_000) ≡ true
unfolding ensure_candidate_fits required_bytes
fits_candidate = refl

ensure_candidate_fits_iff_example : (is_ok (ensure_candidate_fits roomy 1_000_000) ≡ true) ↔ (
    (roomy.minimum_free_bytes + roomy.journal_reserve_bytes + 1_000_000 ≤ roomy.available_bytes)
    × (roomy.managed_image_bytes + 1_000_000 ≤ roomy.managed_image_quota_bytes))
ensure_candidate_fits_iff_example =
    ensure_candidate_fits_iff roomy 1_000_000 (omega arith) (omega arith)

evaluate_screenshot_storage-ensure_candidate_fits_example :
    (roomy.state ≡ healthy) ⊎ (roomy.state ≡ warning)
evaluate_screenshot_storage-ensure_candidate_fits_example =
    evaluate_screenshot_storage-ensure_candidate_fits (5 * gib) (19 * gib) default_limits roomy
      1_000_000 evaluates fits_candidate (omega arith)
