-- ===== src/Engine/Policy/Authorized.antt =====
-- What a policy decision has checked, and what it refuses.
use open_chronicle_next.Base.{
  ℕ, ◌+◌, ◌-◌, ◌≤◌, ◌<◌, ◌%◌, ◌⊎◌, ◌≡◌, inl, inr, String, Bool, true, Option, none, some, List, [],
  ◌∷◌, arith, max, min, every, ◌||◌, not, Bool-cases, subst,
}
use open_chronicle_next.Base.Outcome.{ok, Result-cases}
use open_chronicle_next.Domain.Time.{Instant, UtcRange, nanos, seconds}
use open_chronicle_next.Domain.Grant.{DisclosureGrant, metadata, ocr, derived, has_class}
use open_chronicle_next.Domain.Query.{QueryOperation}
use open_chronicle_next.Engine.Policy.Align.{align_inward, allowed_range}
use open_chronicle_next.Engine.Policy.Scope.{
  CursorScope, PolicyDecision, clip, clip_all, scope_digest, authorize_query,
  authorize_query_content, max_query_range_seconds, reads_derived, classes_of, capped,
  requested_page_limit,
}
use open_chronicle_next.Engine.Policy.Ranges.{IsAligned, align_inward-inside}

-- An effective range: whole buckets, and no longer than 31 days. It ends no later than the requested
-- and the allowed range. It begins no earlier than the later of their beginnings, or, where that
-- lies within a second, less than a second before it.
pub record IsWithin (allowed requested effective : UtcRange) : Type 0 where
  pub aligned : IsAligned effective
  pub near : max requested.start allowed.start < effective.start + nanos
  pub starts :
      (max requested.start allowed.start ≤ effective.start)
      ⊎ (0 < max requested.start allowed.start % nanos)
  pub ends : effective.end ≤ min requested.end allowed.end
  pub bounded : effective.end ≤ effective.start + seconds max_query_range_seconds

-- One effective range for each requested one.
abbrev pub AllWithin : UtcRange → List UtcRange → List UtcRange → Type 0
AllWithin allowed [] [] = Unit {0}
AllWithin allowed [] (e ∷ es) = ⊥
AllWithin allowed (r ∷ rs) [] = ⊥
AllWithin allowed (r ∷ rs) (e ∷ es) = IsWithin allowed r e × AllWithin allowed rs es

module _ (last : ℕ) where
  clip_parts :
      (allowed requested effective : UtcRange)
      → clip last allowed requested ≡ ok effective
      → (align_inward last (max requested.start allowed.start) (min requested.end allowed.end)
          ≡ ok (some effective))
        × (effective.end - effective.start ≤ seconds max_query_range_seconds)
  unfolding clip
  clip_parts allowed requested effective h = ground arith

  clip-IsWithin :
      (allowed requested effective : UtcRange)
      → clip last allowed requested ≡ ok effective
      → IsWithin allowed requested effective
  clip-IsWithin allowed requested effective h =
      let (found, short) = clip_parts allowed requested effective h in
      let (aligned, ends, near, starts) = align_inward-inside last _ _ effective found in
      record {
        aligned = aligned;
        near = near;
        starts = starts;
        ends = ends;
        bounded = omega (arith, aligned.positive, short);
      }

  clip_all-AllWithin :
      (allowed : UtcRange) (rs es : List UtcRange)
      → clip_all last allowed rs ≡ ok es
      → AllWithin allowed rs es
  unfolding clip_all
  clip_all-AllWithin allowed [] [] h = tt
  clip_all-AllWithin allowed [] (e ∷ es) h = absurd (ground arith)
  clip_all-AllWithin allowed (r ∷ rs) [] h = absurd (ground arith)
  clip_all-AllWithin allowed (r ∷ rs) (e ∷ es) h =
      (clip-IsWithin allowed r e (ground arith), clip_all-AllWithin allowed rs es (ground arith))

-- What the content of an answer is checked for.
content_parts :
    (g : DisclosureGrant) (operation : QueryOperation) (searching include_ocr : Bool)
    → authorize_query_content g operation ≡ ok (searching, include_ocr)
    → (has_class metadata g.content_classes ≡ true)
      × (reads_derived operation ≡ true → has_class derived g.content_classes ≡ true)
      × ((searching || include_ocr) ≡ true → has_class ocr g.content_classes ≡ true)
unfolding authorize_query_content
content_parts g operation searching include_ocr h =
    (ground arith, λ reads. ground arith, λ uses. ground arith)

-- The page limit of a decision is no higher than the grant's.
abbrev IsPaged : DisclosureGrant → Option ℕ → Type 0
IsPaged g none = Unit {0}
IsPaged g (some limit) = limit ≤ g.limits.max_page_items

capped-IsPaged : (g : DisclosureGrant) (o : Option ℕ) → IsPaged g (capped g.limits.max_page_items o)
capped-IsPaged g none = tt
capped-IsPaged g (some limit) = omega arith

-- What a decision owes the grant: each of its ranges is a requested one, cut to what the grant
-- allows as in `IsWithin`, its classes are granted, OCR text is included only where the OCR class is
-- granted, and its page limit is at most the grant's.
pub record IsAuthorized (g : DisclosureGrant) (requested : List UtcRange) (now : Instant)
    (d : PolicyDecision) : Type 0 where
  pub allowed : UtcRange
  pub permitted : allowed_range g now ≡ ok allowed
  pub ranges : AllWithin allowed requested d.effective_ranges
  pub classes : every (λ c. has_class c g.content_classes) d.content_classes ≡ true
  pub ocr_granted : (not d.include_ocr || has_class ocr g.content_classes) ≡ true
  pub page : IsPaged g d.page_limit

classes-granted :
    (g : DisclosureGrant) (operation : QueryOperation) (searching include_ocr : Bool)
    → authorize_query_content g operation ≡ ok (searching, include_ocr)
    → every (λ c. has_class c g.content_classes) (classes_of operation (searching || include_ocr))
      ≡ true
classes-granted g operation searching include_ocr h =
    let (has_metadata, has_derived, has_ocr) = content_parts g operation searching include_ocr h in
    elim (Bool-cases (reads_derived operation)) [
      | inl reads ↦ elim (Bool-cases (searching || include_ocr)) [
        | inl uses ↦ let d = has_derived reads in let o = has_ocr uses in ground arith
        | inr plain ↦ let d = has_derived reads in ground arith
      ]
      | inr direct ↦ elim (Bool-cases (searching || include_ocr)) [
        | inl uses ↦ let o = has_ocr uses in ground arith
        | inr plain ↦ ground arith
      ]
    ]

module _ (digest : CursorScope → Option String) (last : ℕ) where
  -- A decision of `authorize_query` has one range for each requested one, of whole buckets and at
  -- most 31 days. It ends no later than the requested range and the range that the grant allows. It
  -- begins no earlier than the later of their beginnings, except where that lies within a second;
  -- then it may begin earlier, by less than a second. The classes of the decision are granted, OCR text
  -- is included only where its class is granted, and the page limit is at most the grant's.
  pub authorize_query-IsAuthorized :
      (g : DisclosureGrant) (operation : QueryOperation) (requested : List UtcRange) (now : Instant)
      (d : PolicyDecision)
      → authorize_query digest last g operation requested now ≡ ok d
      → IsAuthorized g requested now d
  unfolding authorize_query scope_digest
  authorize_query-IsAuthorized g operation requested now d h =
      elim (Result-cases (authorize_query_content g operation)) [
        | inr (e, denied) ↦ absurd (ground arith)
        | inl ((searching, include_ocr), content) ↦ elim (Result-cases (allowed_range g now)) [
          | inr (e, denied) ↦ absurd (ground arith)
          | inl (allowed, permitted) ↦ elim (Result-cases (clip_all last allowed requested)) [
            | inr (e, denied) ↦ absurd (ground arith)
            | inl (effective, clipped) ↦
                let (has_metadata, has_derived, has_ocr) =
                  content_parts g operation searching include_ocr content in
                let within = clip_all-AllWithin last allowed requested effective clipped in
                let granted = classes-granted g operation searching include_ocr content in
                let same_ranges : effective ≡ d.effective_ranges = ground arith in
                let same_classes : classes_of operation (searching || include_ocr)
                    ≡ d.content_classes =
                  ground arith in
                let same_ocr : include_ocr ≡ d.include_ocr = ground arith in
                let same_page : capped g.limits.max_page_items (requested_page_limit operation)
                    ≡ d.page_limit =
                  ground arith in
                record {
                  allowed = allowed;
                  permitted = permitted;
                  ranges = subst (AllWithin allowed requested) same_ranges within;
                  classes =
                      subst (λ cs. every (λ c. has_class c g.content_classes) cs ≡ true)
                        same_classes granted;
                  ocr_granted = ground (arith, has_ocr);
                  page =
                      subst (IsPaged g) same_page
                        (capped-IsPaged g (requested_page_limit operation));
                }
          ]
        ]
      ]
