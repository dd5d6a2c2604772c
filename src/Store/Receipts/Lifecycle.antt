-- ===== src/Store/Receipts/Lifecycle.antt =====
-- How a grant may change on disk: what the grants of a later document owe to those of an earlier.
use open_chronicle_next.Base.{
  ℕ, ◌+◌, ◌≤◌, ◌≡◌, refl, sym, subst, ◌∙◌, inl, inr, some, List, [], ◌∷◌, ◌++◌, arith, find,
  find_sound, ◌==◌, get_elem?, set, Bool-cases,
}
use open_chronicle_next.Base.Sort.{sort}
use open_chronicle_next.Domain.Grant.{DisclosureGrant, GrantState, active, expired, revoked}
use open_chronicle_next.Store.Receipts.Ledger.{same_grant, update_first, position}
use open_chronicle_next.Store.Receipts.Lookup.{
  by_id, find-sort, find-snoc, find-update_first, find-set, get_elem?-position,
}

-- The states in the order that a grant may go through them.
abbrev pub state_rank : GrantState → ℕ
state_rank active = 0
state_rank expired = 1
state_rank revoked = 2

-- `g'` is `g` at a later time: of its terms none has changed, its disclosed bytes have not fallen,
-- and its state is no earlier one.
pub record Descends (g g' : DisclosureGrant) : Type 0 where
  pub grant_id : g'.grant_id ≡ g.grant_id
  pub client_id : g'.client_id ≡ g.client_id
  pub receipt_id : g'.receipt_id ≡ g.receipt_id
  pub time_scope : g'.time_scope ≡ g.time_scope
  pub content_classes : g'.content_classes ≡ g.content_classes
  pub created_at : g'.created_at ≡ g.created_at
  pub expires_at : g'.expires_at ≡ g.expires_at
  pub limits : g'.limits ≡ g.limits
  pub store_generation : g'.store_generation ≡ g.store_generation
  pub spent : g.disclosed_bytes ≤ g'.disclosed_bytes
  pub closing : state_rank g.state ≤ state_rank g'.state

pub Descends-refl : (g : DisclosureGrant) → Descends g g
Descends-refl g = record {
  grant_id = refl;
  client_id = refl;
  receipt_id = refl;
  time_scope = refl;
  content_classes = refl;
  created_at = refl;
  expires_at = refl;
  limits = refl;
  store_generation = refl;
  spent = omega arith;
  closing = omega arith;
}

pub Descends-trans : {g h k : DisclosureGrant} → Descends g h → Descends h k → Descends g k
Descends-trans p q = record {
  grant_id = q.grant_id ∙ p.grant_id;
  client_id = q.client_id ∙ p.client_id;
  receipt_id = q.receipt_id ∙ p.receipt_id;
  time_scope = q.time_scope ∙ p.time_scope;
  content_classes = q.content_classes ∙ p.content_classes;
  created_at = q.created_at ∙ p.created_at;
  expires_at = q.expires_at ∙ p.expires_at;
  limits = q.limits ∙ p.limits;
  store_generation = q.store_generation ∙ p.store_generation;
  spent = omega (arith, p.spent, q.spent);
  closing = omega (arith, p.closing, q.closing);
}

-- A grant may go on to a later state.
pub with_state :
    (g : DisclosureGrant) (s : GrantState)
    → state_rank g.state ≤ state_rank s
    → Descends g (record g { state = s })
with_state g s later = record {
  grant_id = refl;
  client_id = refl;
  receipt_id = refl;
  time_scope = refl;
  content_classes = refl;
  created_at = refl;
  expires_at = refl;
  limits = refl;
  store_generation = refl;
  spent = omega arith;
  closing = later;
}

pub with_spent :
    (g : DisclosureGrant) (n : ℕ)
    → Descends g (record g { disclosed_bytes = g.disclosed_bytes + n })
with_spent g n = record {
  grant_id = refl;
  client_id = refl;
  receipt_id = refl;
  time_scope = refl;
  content_classes = refl;
  created_at = refl;
  expires_at = refl;
  limits = refl;
  store_generation = refl;
  spent = omega arith;
  closing = omega arith;
}

-- Every grant found among the first is found among the second, at a later time.
abbrev pub Extends : List DisclosureGrant → List DisclosureGrant → Type 0
Extends gs gs' =
    (id : ℕ) (g : DisclosureGrant)
    → find (same_grant id) gs ≡ some g
    → (g' : DisclosureGrant) × (find (same_grant id) gs' ≡ some g') × Descends g g'

pub Extends-refl : (gs : List DisclosureGrant) → Extends gs gs
Extends-refl gs id g f = (g, f, Descends-refl g)

pub Extends-trans :
    (gs hs ks : List DisclosureGrant) → Extends gs hs → Extends hs ks → Extends gs ks
Extends-trans gs hs ks p q id g f =
    let (h, fh, dh) = p id g f in let (k, fk, dk) = q id h fh in (k, fk, Descends-trans dh dk)

pub Extends-snoc :
    (gs : List DisclosureGrant) (new : DisclosureGrant) → Extends gs (sort by_id (gs ++ new ∷ []))
Extends-snoc gs new id g f =
    (g, ground (arith, find-sort id (gs ++ new ∷ []), find-snoc id gs new), Descends-refl g)

pub Extends-update_first :
    (id : ℕ) (f : DisclosureGrant → DisclosureGrant)
    → ((g : DisclosureGrant) → Descends g (f g))
    → (gs : List DisclosureGrant) → Extends gs (update_first id f gs)
Extends-update_first id f later gs j g found = elim (Bool-cases (j == id)) [
  | inl same ↦ (f g, ground (arith, find-update_first f (λ x. (later x).grant_id) j id gs), later g)
  | inr other ↦
      (g, ground (arith, find-update_first f (λ x. (later x).grant_id) j id gs), Descends-refl g)
]

-- The search and the position of an identifier lead to the same entry, which carries it.
pub placed_id :
    (id i : ℕ) (gs : List DisclosureGrant) (g : DisclosureGrant)
    → position id gs ≡ some i
    → get_elem? gs i ≡ some g
    → (find (same_grant id) gs ≡ some g) × (g.grant_id ≡ id)
placed_id id i gs g p e =
    let f = get_elem?-position id i gs p in
    (sym f ∙ e, ground (arith, find_sound (same_grant id) gs g (sym f ∙ e)))

pub Extends-set :
    (id i : ℕ) (gs : List DisclosureGrant) (g new : DisclosureGrant)
    → position id gs ≡ some i
    → get_elem? gs i ≡ some g
    → Descends g new
    → Extends gs (set gs i new)
Extends-set id i gs g new p e later j x found =
    let (f, carries) = placed_id id i gs g p e in
    let hit = find-set j id i new gs p (later.grant_id ∙ carries) in
    elim (Bool-cases (j == id)) [
      | inl same ↦ (new, ground arith, subst (λ y. Descends y new) (ground arith) later)
      | inr other ↦ (x, ground arith, Descends-refl x)
    ]
