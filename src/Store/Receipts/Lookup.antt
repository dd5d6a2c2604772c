-- ===== src/Store/Receipts/Lookup.antt =====
-- How the list operations of the receipt document change what a search by grant identifier finds.
use open_chronicle_next.Base.{
  ℕ, zero, suc, ◌≡◌, refl, inl, inr, none, some, List, [], ◌∷◌, ◌++◌, arith, find, ◌==◌,
  if◌then◌else◌, get_elem?, set, Option-cases,
}
use open_chronicle_next.Base.Sort.{sort}
use open_chronicle_next.Base.Sort
use open_chronicle_next.Domain.Grant.{DisclosureGrant}
use open_chronicle_next.Store.Receipts.Ledger.{same_grant, update_first, position}

abbrev pub by_id : DisclosureGrant → ℕ
by_id g = g.grant_id

-- Sorting by identifier changes no search by identifier.
pub find-sort :
    (id : ℕ) (gs : List DisclosureGrant)
    → find (same_grant id) (sort by_id gs) ≡ find (same_grant id) gs
find-sort id gs = Sort.find-sort by_id id gs

pub find-snoc :
    (id : ℕ) (gs : List DisclosureGrant) (g : DisclosureGrant)
    → find (same_grant id) (gs ++ g ∷ []) ≡ elim (find (same_grant id) gs) [
      | some x ↦ some x
      | none ↦ if same_grant id g then some g else none
    ]
find-snoc id [] g = ground arith
find-snoc id (x ∷ gs) g = ground (arith, find-snoc id gs g)

-- What a change of the first entry does to a search, where the change keeps the identifier.
pub find-update_first :
    (f : DisclosureGrant → DisclosureGrant)
    → ((g : DisclosureGrant) → (f g).grant_id ≡ g.grant_id)
    → (j id : ℕ) (gs : List DisclosureGrant)
    → find (same_grant j) (update_first id f gs) ≡ (
        if j == id
        then elim (find (same_grant j) gs) [ none ↦ none | some g ↦ some (f g) ]
        else find (same_grant j) gs)
unfolding update_first
find-update_first f keep j id [] = ground arith
find-update_first f keep j id (g ∷ gs) = ground (arith, keep g, find-update_first f keep j id gs)

-- The position of an identifier is where the search by it stops.
pub get_elem?-position :
    (id i : ℕ) (gs : List DisclosureGrant)
    → position id gs ≡ some i
    → get_elem? gs i ≡ find (same_grant id) gs
unfolding position
get_elem?-position id i [] p = ground arith
get_elem?-position id zero (g ∷ gs) p = elim (Option-cases (position id gs)) [
  | inl e ↦ ground arith
  | inr (k, e) ↦ ground arith
]
get_elem?-position id (suc i) (g ∷ gs) p = ground (arith, get_elem?-position id i gs)

-- A write at that position keeps every identifier's position, and is what the search then finds.
pub find-set :
    (j id i : ℕ) (new : DisclosureGrant) (gs : List DisclosureGrant)
    → position id gs ≡ some i
    → new.grant_id ≡ id
    → find (same_grant j) (set gs i new) ≡ (if j == id then some new else find (same_grant j) gs)
unfolding position
find-set j id i new [] p e = ground arith
find-set j id zero new (g ∷ gs) p e = elim (Option-cases (position id gs)) [
  | inl q ↦ ground arith
  | inr (k, q) ↦ ground arith
]
find-set j id (suc i) new (g ∷ gs) p e = ground (arith, find-set j id i new gs)

pub position-set :
    (id i : ℕ) (new : DisclosureGrant) (gs : List DisclosureGrant)
    → position id gs ≡ some i
    → new.grant_id ≡ id
    → position id (set gs i new) ≡ some i
unfolding position
position-set id i new [] p e = ground arith
position-set id zero new (g ∷ gs) p e = ground arith
position-set id (suc i) new (g ∷ gs) p e = ground (arith, position-set id i new gs)

pub get_elem?-set :
    (i : ℕ) (new old : DisclosureGrant) (gs : List DisclosureGrant)
    → get_elem? gs i ≡ some old
    → get_elem? (set gs i new) i ≡ some new
get_elem?-set i new old [] p = ground arith
get_elem?-set zero new old (g ∷ gs) p = refl
get_elem?-set (suc i) new old (g ∷ gs) p = get_elem?-set i new old gs p

-- A second write at a place undoes the first.
pub set-set :
    (i : ℕ) (new old : DisclosureGrant) (gs : List DisclosureGrant)
    → set (set gs i old) i new ≡ set gs i new
set-set i new old [] = refl
set-set zero new old (g ∷ gs) = refl
set-set (suc i) new old (g ∷ gs) = ground (arith, set-set i new old gs)
