-- ===== src/Store/Receipts/History.antt =====
-- What each call does to the grants on disk, and histories of calls.
use open_chronicle_next.Base.{
  ℕ, ◌≡◌, ◌⊎◌, inl, inr, true, some, List, [], ◌∷◌, ◌++◌, arith, Option-cases, Bool-cases,
  get_elem?, set,
}
use open_chronicle_next.Base.Sort.{sort}
use open_chronicle_next.Base.Outcome.{ok, Result-cases}
use open_chronicle_next.Domain.Time.{Instant}
use open_chronicle_next.Domain.Grant.{DisclosureGrant, revoked, expired, is_active}
use open_chronicle_next.Store.World.{Platform, load_generation}
use open_chronicle_next.Store.Receipts.Document.{DisclosureReceiptDocument}
use open_chronicle_next.Store.Receipts.Ledger.{
  load, install, revoke, begin_query, opened, retire, update_first, with_grant, without_grant,
  pruned, position,
}
use open_chronicle_next.Store.Receipts.Lookup.{by_id}
use open_chronicle_next.Store.Receipts.Lifecycle.{
  Extends, Extends-refl, Extends-snoc, Extends-update_first, Extends-set, with_state,
}
use open_chronicle_next.Store.Receipts.Calls.{Files, grants_of, load_cases, persist_cases}

install_grants :
    (os : Platform) (g : DisclosureGrant) (now : Instant) (w : Files)
    → ((install os g now w).1 ≡ w)
      ⊎ (grants_of (install os g now w).1 ≡ sort by_id (grants_of w ++ g ∷ []))
unfolding install load_generation
install_grants os g now w =
    let (kept, same) = load_cases os now w in
    elim (Result-cases (load os now w).0) [
      | inr (e, failed) ↦ ground arith
      | inl (d, loaded) ↦
          let grants = same d loaded in ground (arith, persist_cases os (with_grant d g) now w)
    ]

revoke_grants :
    (os : Platform) (id expected : ℕ) (now : Instant) (w : Files)
    → ((revoke os id expected now w).1 ≡ w)
      ⊎ (grants_of (revoke os id expected now w).1
          ≡ update_first id (λ g. record g { state = revoked }) (grants_of w))
unfolding revoke load_generation
revoke_grants os id expected now w =
    let (kept, same) = load_cases os now w in
    elim (Result-cases (load os now w).0) [
      | inr (e, failed) ↦ ground arith
      | inl (d, loaded) ↦
          let grants = same d loaded in ground (arith, persist_cases os (without_grant d id) now w)
    ]

-- What `begin_query` may write: the grant of that identifier, marked expired.
abbrev Expires : ℕ → List DisclosureGrant → List DisclosureGrant → Type 0
Expires id gs gs' =
    (i : ℕ) × (g : DisclosureGrant) × (position id gs ≡ some i)
    × (get_elem? gs i ≡ some g)
    × (is_active g.state ≡ true)
    × (gs' ≡ set gs i (record g { state = expired }))

module _ (os : Platform) (id client expected : ℕ) (now : Instant) (w : Files) where
  -- The files after `begin_query`, where the grant's place on disk is known.
  begin_query_placed :
      (d : DisclosureReceiptDocument) (i : ℕ) (g : DisclosureGrant)
      → (load os now w).0 ≡ ok d
      → position id (grants_of w) ≡ some i
      → get_elem? (grants_of w) i ≡ some g
      → ((begin_query os id client expected now w).1 ≡ w)
        ⊎ ((is_active g.state ≡ true)
            × (grants_of (begin_query os id client expected now w).1
                ≡ set (grants_of w) i (record g { state = expired })))
  unfolding begin_query load_generation opened retire
  begin_query_placed d i g loaded placed found =
      let (kept, same) = load_cases os now w in
      let grants = same d loaded in
      let written =
        persist_cases os
          (record (pruned d expected now) {
            grants = set d.grants i (record g { state = expired });
          })
          now w in
      elim (Bool-cases (is_active g.state)) [ inl live ↦ ground arith | inr closed ↦ ground arith ]

  begin_query_grants :
      ((begin_query os id client expected now w).1 ≡ w)
      ⊎ Expires id (grants_of w) (grants_of (begin_query os id client expected now w).1)
  unfolding begin_query load_generation
  begin_query_grants =
      let (kept, same) = load_cases os now w in
      elim (Result-cases (load os now w).0) [
        | inr (e, failed) ↦ ground arith
        | inl (d, loaded) ↦ elim (Option-cases (position id (grants_of w))) [
          | inl missing ↦ let grants = same d loaded in ground arith
          | inr (i, placed) ↦ elim (Option-cases (get_elem? (grants_of w) i)) [
            | inl missing ↦ let grants = same d loaded in ground arith
            | inr (g, found) ↦ elim (begin_query_placed d i g loaded placed found) [
              | inl files ↦ inl files
              | inr (live, grants) ↦ inr (i, g, placed, found, live, grants)
            ]
          ]
        ]
      ]

pub install-Extends :
    (os : Platform) (g : DisclosureGrant) (now : Instant) (w : Files)
    → Extends (grants_of w) (grants_of (install os g now w).1)
install-Extends os g now w = elim (install_grants os g now w) [
  | inl files ↦ rw files (Extends-refl (grants_of w))
  | inr grants ↦ rw grants (Extends-snoc (grants_of w) g)
]

pub revoke-Extends :
    (os : Platform) (id expected : ℕ) (now : Instant) (w : Files)
    → Extends (grants_of w) (grants_of (revoke os id expected now w).1)
revoke-Extends os id expected now w = elim (revoke_grants os id expected now w) [
  | inl files ↦ rw files (Extends-refl (grants_of w))
  | inr grants ↦
      rw grants (Extends-update_first id _ (λ g. with_state g revoked (ground arith)) (grants_of w))
]

pub begin_query-Extends :
    (os : Platform) (id client expected : ℕ) (now : Instant) (w : Files)
    → Extends (grants_of w) (grants_of (begin_query os id client expected now w).1)
begin_query-Extends os id client expected now w =
    elim (begin_query_grants os id client expected now w) [
      | inl files ↦ rw files (Extends-refl (grants_of w))
      | inr (i, g, placed, found, live, grants) ↦ rw grants (
          Extends-set id i (grants_of w) g (record g { state = expired }) placed found
            (with_state g expired (ground arith)))
    ]
