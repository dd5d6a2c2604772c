-- ===== src/Store/Receipts/Calls.antt =====
-- What a call on the receipts has done, by how it ended: the outcomes of the operations of
-- `GrantReceiptStore`, with their platform left open.
use open_chronicle_next.Base.{
  ℕ, ◌≡◌, ◌⊎◌, inl, inr, true, Option, none, some, List, [], arith, find, Option-cases, get_elem?,
}
use open_chronicle_next.Base.Outcome.{ok, Result-cases}
use open_chronicle_next.Domain.Time.{Instant}
use open_chronicle_next.Domain.Grant.{DisclosureGrant, is_active_at}
use open_chronicle_next.Store.World.{World, Platform, load_generation, atomic_write_with_boundary}
use open_chronicle_next.Store.Receipts.Document.{DisclosureReceiptDocument, empty}
use open_chronicle_next.Store.Receipts.Document
use open_chronicle_next.Store.Receipts.Ledger.{
  GrantQuerySession, same_grant, position, pruned, load, persist, begin_query, opened,
}

abbrev pub Files : Type 0
Files = World DisclosureReceiptDocument

abbrev pub grants_of : Files → List DisclosureGrant
grants_of w = elim w.receipts [ none ↦ [] | some d ↦ d.grants ]

-- The grant of an identifier on disk.
abbrev pub lookup : ℕ → Files → Option DisclosureGrant
lookup id w = find (same_grant id) (grants_of w)

-- The document that stands for the file, absent or not.
abbrev pub on_disk : Instant → Files → DisclosureReceiptDocument
on_disk now w = elim w.receipts [ none ↦ empty now | some d ↦ d ]

-- `load` writes nothing, and returns what is on disk.
load_returns :
    (os : Platform) (now : Instant) (w : Files) (d : DisclosureReceiptDocument)
    → (load os now w).0 ≡ ok d
    → d ≡ on_disk now w
unfolding load
load_returns os now w d h = ground arith

-- In particular it returns the grants on disk.
pub load_cases :
    (os : Platform) (now : Instant) (w : Files)
    → ((load os now w).1 ≡ w)
      × ((d : DisclosureReceiptDocument) → (load os now w).0 ≡ ok d → d.grants ≡ grants_of w)
unfolding load
load_cases os now w = (ground arith, λ d h. ground arith)

-- A write leaves the files as they were, or puts the dated document there.
pub persist_cases :
    (os : Platform) (d : DisclosureReceiptDocument) (now : Instant) (w : Files)
    → ((persist os d now w).1 ≡ w)
      ⊎ ((Document.validate (record d { updated_at = now }) ≡ ok tt)
          × ((persist os d now w).1 ≡ record w { receipts = some (record d { updated_at = now }) }))
unfolding persist atomic_write_with_boundary
persist_cases os d now w = ground arith

-- A session begins with the files untouched, at the place of an active grant of the caller.
pub record Begun (id client expected : ℕ) (now : Instant) (w w' : Files) (s : GrantQuerySession)
    : Type 0 where
  pub grant : DisclosureGrant
  pub stored : DisclosureReceiptDocument
  pub unchanged : w' ≡ w
  pub read : stored ≡ on_disk now w
  pub grants : stored.grants ≡ grants_of w
  pub document : s.document ≡ pruned stored expected now
  pub placed : position id s.document.grants ≡ some s.grant_index
  pub found : get_elem? s.document.grants s.grant_index ≡ some grant
  pub original : s.original_disclosed_bytes ≡ grant.disclosed_bytes
  pub instant : s.now ≡ now
  pub caller : grant.client_id ≡ client
  pub generation : grant.store_generation ≡ expected
  pub live : is_active_at grant now ≡ true

-- A query begins on an active grant of the caller and of the current generation only.
pub begin_query-Begun :
    (os : Platform) (id client expected : ℕ) (now : Instant) (w : Files) (s : GrantQuerySession)
    → (begin_query os id client expected now w).0 ≡ ok s
    → Begun id client expected now w (begin_query os id client expected now w).1 s
unfolding begin_query load_generation opened
begin_query-Begun os id client expected now w s h =
    let (kept, same) = load_cases os now w in
    elim (Result-cases (load os now w).0) [
      | inr (e, failed) ↦ absurd (ground arith)
      | inl (d, loaded) ↦ elim (Option-cases (position id d.grants)) [
        | inl missing ↦ absurd (ground arith)
        | inr (i, placed) ↦ elim (Option-cases (get_elem? d.grants i)) [
          | inl missing ↦ absurd (ground arith)
          | inr (g, found) ↦ record {
            grant = g;
            stored = d;
            unchanged = ground arith;
            read = load_returns os now w d loaded;
            grants = same d loaded;
            document = ground arith;
            placed = ground arith;
            found = ground arith;
            original = ground arith;
            instant = ground arith;
            caller = ground arith;
            generation = ground arith;
            live = ground arith;
          }
        ]
      ]
    ]
