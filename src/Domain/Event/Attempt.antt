-- ===== src/Domain/Event/Attempt.antt =====
-- crates/chronicle-domain/src/event.rs: `ObservationAttempt::validate` and the checks it calls.
use open_chronicle_next.Base.{
  ℕ, ◌*◌, max, String, Bool, true, false, ◌||◌, not, Option, none, some, List, [], ◌∷◌, any, ltb,
  ◌==◌, str_eq,
}
use open_chronicle_next.Base.Outcome.{Result, ok, err, ◌>>◌, refuse, require}
use open_chronicle_next.Domain.Event.{
  AttemptStatus, EvidenceState, PresenceState, OcrState, OcrEvidence, ImageReference,
  PermittedWindowContext, CapturedContent, NoEvidenceReason, ObservationContent, ObservationAttempt,
  completed, skipped, failed,
}

abbrev pub is_empty : String → Bool
is_empty s = str_eq s ""

abbrev pub is_some {ℓ} : {A : Type ℓ} → Option A → Bool
is_some none = false
is_some (some a) = true

abbrev pub some_and {ℓ} : {A : Type ℓ} → (A → Bool) → Option A → Bool
some_and p none = false
some_and p (some a) = p a

-- The match of presence and idle seconds.
unfoldable pub check_idle : PresenceState → Option ℕ → Result String (Unit {0})
check_idle PresenceState.idle none = err "idle presence requires a positive idle_seconds value"
check_idle PresenceState.idle (some s) =
    require (ltb 0 s) "idle presence requires a positive idle_seconds value"
check_idle _ none = ok tt
check_idle _ (some s) = err "idle_seconds is allowed only for idle presence"

unfoldable pub paused_reason : NoEvidenceReason → Bool
paused_reason NoEvidenceReason.user_paused = true
paused_reason NoEvidenceReason.study_expired = true
paused_reason _ = false

unfoldable pub unavailable_reason : NoEvidenceReason → Bool
unavailable_reason NoEvidenceReason.permission_denied = true
unavailable_reason NoEvidenceReason.locked = true
unavailable_reason NoEvidenceReason.asleep = true
unavailable_reason NoEvidenceReason.no_exact_window = true
unavailable_reason NoEvidenceReason.ambiguous_window = true
unavailable_reason _ = false

unfoldable pub failed_reason : NoEvidenceReason → Bool
failed_reason NoEvidenceReason.capture_api_failure = true
failed_reason _ = false

-- `matches_axis`.
unfoldable pub matches_axis : AttemptStatus → EvidenceState → ObservationContent → Bool
unfolding paused_reason unavailable_reason failed_reason
matches_axis completed EvidenceState.captured_new (ObservationContent.captured c) = true
matches_axis completed EvidenceState.captured_unchanged (ObservationContent.unchanged c) = true
matches_axis skipped EvidenceState.protected (ObservationContent.protected c) = true
matches_axis skipped EvidenceState.paused (ObservationContent.no_evidence r) = paused_reason r
matches_axis skipped EvidenceState.unavailable (ObservationContent.no_evidence r) =
    unavailable_reason r
matches_axis failed EvidenceState.capture_failed (ObservationContent.no_evidence r) =
    failed_reason r
matches_axis _ _ _ = false

abbrev awake : PresenceState → Bool
awake PresenceState.active = true
awake PresenceState.idle = true
awake PresenceState.unknown = true
awake PresenceState.locked = false
awake PresenceState.asleep = false

abbrev is_locked : PresenceState → Bool
is_locked p = elim p [ PresenceState.locked ↦ true | _ ↦ false ]

abbrev is_asleep : PresenceState → Bool
is_asleep p = elim p [ PresenceState.asleep ↦ true | _ ↦ false ]

-- `presence_matches`.
unfoldable pub presence_matches : ObservationContent → PresenceState → Bool
presence_matches (ObservationContent.captured c) p = awake p
presence_matches (ObservationContent.unchanged c) p = awake p
presence_matches (ObservationContent.protected c) p = awake p
presence_matches (ObservationContent.no_evidence NoEvidenceReason.locked) p = is_locked p
presence_matches (ObservationContent.no_evidence NoEvidenceReason.asleep) p = is_asleep p
presence_matches (ObservationContent.no_evidence _) p = awake p

unfoldable pub validate_window_context : PermittedWindowContext → Result String (Unit {0})
validate_window_context c =
    refuse (is_empty c.application_bundle_id || is_empty c.process_name)
      "captured window identity fields must be non-empty"
    >> refuse (some_and is_empty c.window_title) "present window titles must be non-empty"
    >> refuse (some_and (λ d. is_empty d.adapter || is_empty d.domain) c.authorized_domain)
        "authorized domain context must name its adapter and domain"

unfoldable pub validate_content_hash : String → Result String (Unit {0})
validate_content_hash hash = require (not (is_empty hash)) "captured content hash must be non-empty"

abbrev is_not_run : OcrState → Bool
is_not_run o = elim o [ OcrState.not_run ↦ true | _ ↦ false ]

-- `ocr_consistent`.
unfoldable pub ocr_consistent : OcrState → Bool → Bool
ocr_consistent OcrState.complete has_ocr = has_ocr
ocr_consistent OcrState.empty has_ocr = has_ocr
ocr_consistent OcrState.partial has_ocr = has_ocr
ocr_consistent OcrState.failed has_ocr = not has_ocr
ocr_consistent OcrState.not_run has_ocr = not has_ocr

-- `text_consistent`.
unfoldable pub text_consistent : OcrState → String → Bool
text_consistent OcrState.empty text = is_empty text
text_consistent OcrState.complete text = not (is_empty text)
text_consistent OcrState.partial text = not (is_empty text)
text_consistent OcrState.failed text = false
text_consistent OcrState.not_run text = false

-- Some entry has appeared before it, among `seen` or in the list.
unfoldable pub repeats_in : (seen : List String) → List String → Bool
repeats_in seen [] = false
repeats_in seen (l ∷ ls) = any (str_eq l) seen || repeats_in (l ∷ seen) ls

unfoldable pub validate_ocr : OcrState → OcrEvidence → Result String (Unit {0})
unfolding repeats_in text_consistent
validate_ocr state o =
    refuse (is_empty o.engine.adapter || is_empty o.engine.version)
      "OCR engine provenance fields must be non-empty"
    >> refuse (any is_empty o.recognition_languages || repeats_in [] o.recognition_languages)
        "OCR recognition languages must be non-empty and unique"
    >> refuse (some_and not o.confidence) "OCR confidence must be between zero and one"
    >> require (text_consistent state o.text) "ocr_state and OCR text emptiness disagree"

-- The product of two 32-bit numbers fits 64 bits, so `checked_mul` succeeds.
unfoldable pub validate_image : (content_hash : String) → ImageReference → Result String (Unit {0})
validate_image content_hash i =
    refuse
      ((i.dimensions.width == 0)
        || (i.dimensions.height == 0)
        || (i.dimensions.scale_milli == 0)
        || ltb 2560 (max i.dimensions.width i.dimensions.height)
        || ltb 8_000_000 (i.dimensions.width * i.dimensions.height))
      "image dimensions exceed the v1 capture bounds"
    >> require (str_eq i.content_hash content_hash) "image and captured-content hashes must match"

-- `if let Some(x) = option { check(x)? }`.
abbrev check_some {ℓ} :
    {A : Type ℓ} → (A → Result String (Unit {0})) → Option A → Result String (Unit {0})
check_some f none = ok tt
check_some f (some a) = f a

unfoldable pub validate_captured : OcrState → CapturedContent → Result String (Unit {0})
unfolding validate_window_context validate_content_hash ocr_consistent validate_ocr validate_image
validate_captured state c =
    validate_window_context c.context
    >> validate_content_hash c.content_hash
    >> refuse (not (ocr_consistent state (is_some c.ocr)) || is_not_run state)
        "ocr_state and OCR payload disagree"
    >> check_some (validate_ocr state) c.ocr
    >> check_some (validate_image c.content_hash) c.image

-- The last match of `ObservationAttempt::validate`.
unfoldable pub validate_content : OcrState → ObservationContent → Result String (Unit {0})
unfolding validate_captured validate_window_context validate_content_hash
validate_content state (ObservationContent.captured c) = validate_captured state c
validate_content state (ObservationContent.unchanged c) =
    validate_window_context c.context
    >> validate_content_hash c.content_hash
    >> require (is_not_run state) "unchanged content must use ocr_state=not-run"
validate_content state (ObservationContent.protected c) =
    refuse (is_empty c.privacy_policy_version) "protected content requires a privacy policy version"
    >> require (is_not_run state) "protected content must use ocr_state=not-run"
validate_content state (ObservationContent.no_evidence r) =
    require (is_not_run state) "non-captured content must use ocr_state=not-run"

-- `ObservationAttempt::validate`.
unfoldable pub validate_attempt : ObservationAttempt → Result String (Unit {0})
unfolding check_idle matches_axis presence_matches validate_content
validate_attempt a =
    refuse (not ((a.cadence_seconds == 30) || (a.cadence_seconds == 60)))
      "cadence_seconds must be 30 or 60"
    >> check_idle a.presence_state a.idle_seconds
    >> require (matches_axis a.attempt_status a.evidence_state a.content)
        "evidence_state and content type disagree"
    >> require (presence_matches a.content a.presence_state)
        "presence_state and evidence outcome disagree"
    >> validate_content a.ocr_state a.content
