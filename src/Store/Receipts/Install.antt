-- ===== src/Store/Receipts/Install.antt =====
-- What `install` promises: a grant that is installed can be queried under until it expires.
use open_chronicle_next.Base.{
  ℕ, suc, ◌≤◌, ◌<◌, ◌≡◌, ◌∙◌, inl, inr, true, ◌||◌, some, List, [], ◌∷◌, ◌++◌, arith, any-false,
  find, find-snoc_none, ◌==◌, Option-cases, Bool-cases,
}
use open_chronicle_next.Base.Outcome.{ok, is_ok, Result-cases}
use open_chronicle_next.Domain.Time.{Instant}
use open_chronicle_next.Domain.Grant.{DisclosureGrant, is_active, is_active_at}
use open_chronicle_next.Store.World.{
  Platform, calm, StoreGeneration, load_generation, atomic_write_with_boundary,
}
use open_chronicle_next.Store.Receipts.Document.{DisclosureReceiptDocument}
use open_chronicle_next.Store.Receipts.Document
use open_chronicle_next.Store.Receipts.Ledger.{
  install, begin_query, opened, load, persist, position, same_grant, with_grant,
}
use open_chronicle_next.Store.Receipts.Lookup.{find-sort, get_elem?-position}
use open_chronicle_next.Store.Receipts.Calls.{Files, load_cases}

-- A search by identifier that succeeds has a position.
position-find :
    (id : ℕ) (gs : List DisclosureGrant) (g : DisclosureGrant)
    → find (same_grant id) gs ≡ some g
    → (i : ℕ) × (position id gs ≡ some i)
unfolding position
position-find id [] g h = absurd (ground arith)
position-find id (x ∷ gs) g h = elim (Bool-cases (same_grant id x)) [
  | inl hit ↦ (0, ground arith)
  | inr miss ↦ let (i, p) = position-find id gs g (ground arith) in (suc i, ground arith)
]

-- A successful `install` leaves a valid document in which the new grant is found.
install_parts :
    (os : Platform) (g : DisclosureGrant) (now : Instant) (w : Files)
    → (install os g now w).0 ≡ ok tt
    → (d : DisclosureReceiptDocument) × ((install os g now w).1 ≡ record w { receipts = some d })
      × (Document.validate d ≡ ok tt)
      × (find (same_grant g.grant_id) d.grants ≡ some g)
      × (is_active g.state ≡ true)
      × (e : StoreGeneration) × (w.generation ≡ some e)
      × ((load_generation w).0 ≡ ok e)
      × (e.generation ≡ g.store_generation)
unfolding install load_generation persist atomic_write_with_boundary
install_parts os g now w h =
    let (kept, same) = load_cases os now w in
    elim (Result-cases (load os now w).0) [
      | inr (e, failed) ↦ absurd (ground arith)
      | inl (d, loaded) ↦ elim (Option-cases w.generation) [
        | inl missing ↦ absurd (ground arith)
        | inr (e, current) ↦ (
          record (with_grant d g) { updated_at = now },
          ground arith,
          ground arith,
          find-sort g.grant_id (d.grants ++ g ∷ [])
              ∙ find-snoc_none (same_grant g.grant_id) d.grants g
                  (any-false (same_grant g.grant_id)
                    (λ x. x.grant_id == g.grant_id || x.receipt_id == g.receipt_id) d.grants
                    (λ x k. ground arith) (ground arith))
                  (ground arith),
          ground arith,
          e,
          current,
          ground arith,
          ground arith,
        )
      ]
    ]

-- After a successful `install`, the grant's client can begin a query under it at every instant from
-- its creation to before its expiry, where the platform's calls succeed.
pub begin_query-install :
    (os : Platform) (g : DisclosureGrant) (now later : Instant) (w : Files)
    → (install os g now w).0 ≡ ok tt
    → g.created_at ≤ later
    → later < g.expires_at
    → is_ok
        (begin_query calm g.grant_id g.client_id g.store_generation later (install os g now w).1).0
      ≡ true
unfolding begin_query opened is_active_at load load_generation
begin_query-install os g now later w h created live =
    let (d, files, valid, found, is_live, e, stored, loads, same) = install_parts os g now w h in
    let (i, placed) = position-find g.grant_id d.grants g found in
    let here = get_elem?-position g.grant_id i d.grants placed in ground arith
