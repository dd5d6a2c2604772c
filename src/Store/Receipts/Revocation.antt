-- ===== src/Store/Receipts/Revocation.antt =====
-- A grant that is closed, by `revoke` or because it has run out, is closed for every later query.
use open_chronicle_next.Base.{
  ℕ, ◌≡◌, ◌≢◌, refl, subst, get_elem?, ap, ◌∙◌, inl, inr, true, false, some, arith, Option-cases,
}
use open_chronicle_next.Base.Outcome.{ok, Result-cases}
use open_chronicle_next.Domain.Time.{Instant}
use open_chronicle_next.Domain.Grant.{DisclosureGrant, revoked, is_active, is_active_at}
use open_chronicle_next.Store.World.{Platform, load_generation, atomic_write_with_boundary}
use open_chronicle_next.Store.Receipts.Ledger.{
  GrantQuerySession, revoke, begin_query, load, persist, position,
}
use open_chronicle_next.Store.Receipts.Lookup.{find-update_first}
use open_chronicle_next.Store.Receipts.Lifecycle.{placed_id}
use open_chronicle_next.Store.Receipts.Calls.{
  Files, grants_of, lookup, load_cases, begin_query-Begun, Begun,
}
use open_chronicle_next.Store.Receipts.Trace.{Reach, Reach-Extends}

-- The grant that a query begins under is the one on disk, and is active.
begun_active :
    (os : Platform) (id client expected : ℕ) (now : Instant) (w : Files) (s : GrantQuerySession)
    → (begin_query os id client expected now w).0 ≡ ok s
    → (g : DisclosureGrant) × (lookup id w ≡ some g) × (is_active_at g now ≡ true)
begun_active os id client expected now w s begun =
    (b.grant, (placed_id id s.grant_index (grants_of w) b.grant placed found).0, b.live)
  where
    b : Begun id client expected now w (begin_query os id client expected now w).1 s
    b = begin_query-Begun os id client expected now w s begun

    same : s.document.grants ≡ grants_of w
    same = ap (λ d. d.grants) b.document ∙ b.grants

    placed : position id (grants_of w) ≡ some s.grant_index
    placed = subst (λ gs. position id gs ≡ some s.grant_index) same b.placed

    found : get_elem? (grants_of w) s.grant_index ≡ some b.grant
    found = subst (λ gs. get_elem? gs s.grant_index ≡ some b.grant) same b.found

-- Once the grant of an identifier is revoked or expired on disk, no later history of calls lets a
-- query begin under that identifier, whoever asks and at whatever instant.
pub closed_stays_closed :
    (id : ℕ) {w w' : Files} (g : DisclosureGrant)
    → lookup id w ≡ some g
    → is_active g.state ≡ false
    → Reach w w'
    → (os : Platform) (client expected : ℕ) (now : Instant) (s : GrantQuerySession)
    → (begin_query os id client expected now w').0 ≢ ok s
unfolding is_active_at
closed_stays_closed id {w} {w'} g found closed r os client expected now s begun =
    let (g', found', later) = Reach-Extends r id g found in
    let (k, foundk, live) = begun_active os id client expected now w' s begun in
    let closing = later.closing in ground arith

-- What a successful `revoke` leaves on disk under the identifier.
revoke_marks :
    (os : Platform) (id expected : ℕ) (now : Instant) (w : Files)
    → (revoke os id expected now w).0 ≡ ok tt
    → (g : DisclosureGrant) × (lookup id w ≡ some g)
      × (lookup id (revoke os id expected now w).1 ≡ some (record g { state = revoked }))
unfolding revoke load_generation persist atomic_write_with_boundary
revoke_marks os id expected now w h =
    let (kept, same) = load_cases os now w in
    elim (Result-cases (load os now w).0) [
      | inr (e, failed) ↦ absurd (ground arith)
      | inl (d, loaded) ↦ elim (Option-cases (lookup id w)) [
        | inl missing ↦ let grants = same d loaded in absurd (ground arith)
        | inr (g, found) ↦
            let grants = same d loaded in
            let hit =
              find-update_first (λ x. record x { state = revoked }) (λ x. refl) id id d.grants in
            (g, found, ground arith)
      ]
    ]

-- After a `revoke` that succeeded, no history of calls lets a query begin under that grant again.
pub revoke-final :
    (os : Platform) (id expected : ℕ) (now : Instant) (w : Files) {w' : Files}
    → (revoke os id expected now w).0 ≡ ok tt
    → Reach (revoke os id expected now w).1 w'
    → (os' : Platform) (client expected' : ℕ) (later : Instant) (s : GrantQuerySession)
    → (begin_query os' id client expected' later w').0 ≢ ok s
revoke-final os id expected now w h r =
    let (g, found, marked) = revoke_marks os id expected now w h in
    closed_stays_closed id (record g { state = revoked }) marked refl r
