-- ===== src/Store/Receipts/Staging.antt =====
-- What a session may stage before it commits, and what it then owes its grant.
use open_chronicle_next.Base.{
  ℕ, ◌+◌, ◌≤◌, ◌≡◌, refl, sym, ◌∙◌, ◌⊎◌, inl, inr, String, some, List, [], ◌∷◌, arith, ap,
  get_elem?, set, zero, suc,
}
use open_chronicle_next.Base.Outcome.{ok}
use open_chronicle_next.Domain.Query.{QueryOperationKind}
use open_chronicle_next.Domain.Grant.{DisclosureGrant}
use open_chronicle_next.Store.Receipts.Ledger.{GrantQuerySession}
use open_chronicle_next.Store.Receipts.Lookup.{get_elem?-set, set-set}
use open_chronicle_next.Store.Receipts.Session.{
  current, stage_cursor, stage_disclosed_bytes, stage_derived_write, with_bytes,
}

-- The sessions that staging calls lead to; a call that fails leaves the session as it was.
pub data Staged (s : GrantQuerySession) : GrantQuerySession → Type 0 where
  fresh : Staged s s
  cursor :
      {t u : GrantQuerySession} {token : String}
      → Staged s t
      → (uuid : String) (operation : QueryOperationKind) (scope position : String)
      → stage_cursor t uuid operation scope position ≡ ok (token, u)
      → Staged s u
  bytes :
      {t u : GrantQuerySession}
      → Staged s t
      → (n : ℕ) → stage_disclosed_bytes t n ≡ ok u
      → Staged s u
  write :
      {t u : GrantQuerySession}
      → Staged s t
      → (request artifact revision : ℕ) → stage_derived_write t request artifact revision ≡ ok u
      → Staged s u

-- The session still stands at its grant, which has been charged `n` bytes within both limits.
pub record Charged (s t : GrantQuerySession) (g : DisclosureGrant) (n : ℕ) : Type 0 where
  pub index : t.grant_index ≡ s.grant_index
  pub original : t.original_disclosed_bytes ≡ s.original_disclosed_bytes
  pub instant : t.now ≡ s.now
  pub grants :
      t.document.grants
      ≡ set s.document.grants s.grant_index
          (record g { disclosed_bytes = s.original_disclosed_bytes + n })
  pub response : n ≤ g.limits.max_response_bytes
  pub budget : (n ≡ 0) ⊎ (s.original_disclosed_bytes + n ≤ g.limits.max_cumulative_bytes)

set_self :
    (i : ℕ) (g : DisclosureGrant) (gs : List DisclosureGrant)
    → get_elem? gs i ≡ some g
    → set gs i g ≡ gs
set_self i g [] e = refl
set_self zero g (x ∷ gs) e = ground arith
set_self (suc i) g (x ∷ gs) e = ground (arith, set_self i g gs)

-- A response is staged within the response limit and within what the cumulative limit leaves.
bytes_parts :
    (t u : GrantQuerySession) (n : ℕ) (g : DisclosureGrant)
    → get_elem? t.document.grants t.grant_index ≡ some g
    → stage_disclosed_bytes t n ≡ ok u
    → (n ≤ g.limits.max_response_bytes)
      × (t.original_disclosed_bytes + n ≤ g.limits.max_cumulative_bytes)
      × (u ≡ with_bytes t g (t.original_disclosed_bytes + n))
unfolding stage_disclosed_bytes current
bytes_parts t u n g found h = ground arith

-- The other two calls leave the grants, the place and the clock alone.
abbrev SameGrants : GrantQuerySession → GrantQuerySession → Type 0
SameGrants t u =
    (u.document.grants ≡ t.document.grants)
    × (u.grant_index ≡ t.grant_index)
    × (u.original_disclosed_bytes ≡ t.original_disclosed_bytes)
    × (u.now ≡ t.now)

cursor_parts :
    (t u : GrantQuerySession) (uuid : String) (operation : QueryOperationKind)
    (scope position token : String)
    → stage_cursor t uuid operation scope position ≡ ok (token, u)
    → SameGrants t u
unfolding stage_cursor current
cursor_parts t u uuid operation scope position token h = ground arith

write_parts :
    (t u : GrantQuerySession) (request artifact revision : ℕ)
    → stage_derived_write t request artifact revision ≡ ok u
    → SameGrants t u
unfolding stage_derived_write current
write_parts t u request artifact revision h = ground arith

Charged-same :
    {s t u : GrantQuerySession} {g : DisclosureGrant} {n : ℕ}
    → Charged s t g n
    → SameGrants t u
    → Charged s u g n
Charged-same c (grants, index, original, instant) = record {
  index = index ∙ c.index;
  original = original ∙ c.original;
  instant = instant ∙ c.instant;
  grants = grants ∙ c.grants;
  response = c.response;
  budget = c.budget;
}

-- Staging bytes anew replaces what was staged before.
Charged-bytes :
    (s t u : GrantQuerySession) (g : DisclosureGrant) (n m : ℕ)
    → get_elem? s.document.grants s.grant_index ≡ some g
    → Charged s t g n
    → stage_disclosed_bytes t m ≡ ok u
    → Charged s u g m
Charged-bytes s t u g n m found c e = record {
  index = ground (arith, parts.2);
  original = ground (arith, parts.2);
  instant = ground (arith, parts.2);
  grants = ground (arith, parts.2, set-set s.grant_index now charged s.document.grants);
  response = parts.0;
  budget = inr (ground (arith, parts.1));
}
  where
    charged : DisclosureGrant
    charged = record g { disclosed_bytes = s.original_disclosed_bytes + n }

    now : DisclosureGrant
    now = record g { disclosed_bytes = s.original_disclosed_bytes + m }

    standing : get_elem? t.document.grants t.grant_index ≡ some charged
    standing = ground (arith, get_elem?-set s.grant_index charged g s.document.grants found)

    parts :
        (m ≤ g.limits.max_response_bytes)
        × (t.original_disclosed_bytes + m ≤ g.limits.max_cumulative_bytes)
        × (u ≡ with_bytes t charged (t.original_disclosed_bytes + m))
    parts = bytes_parts t u m charged standing e

-- The bytes staged last.
pub staged_bytes : {s t : GrantQuerySession} → Staged s t → ℕ
staged_bytes fresh = 0
staged_bytes (cursor r uuid operation scope position e) = staged_bytes r
staged_bytes (bytes r n e) = n
staged_bytes (write r request artifact revision e) = staged_bytes r

-- However a session is used, its grant is charged the bytes staged last, once, within both limits.
pub Staged-Charged :
    {s t : GrantQuerySession} (g : DisclosureGrant)
    → get_elem? s.document.grants s.grant_index ≡ some g
    → s.original_disclosed_bytes ≡ g.disclosed_bytes
    → (r : Staged s t) → Charged s t g (staged_bytes r)
unfolding staged_bytes
Staged-Charged {s} g found spent fresh = record {
  index = refl;
  original = refl;
  instant = refl;
  grants = sym (
      ap (set s.document.grants s.grant_index) (ground arith)
      ∙ set_self s.grant_index g s.document.grants found);
  response = omega arith;
  budget = inl refl;
}
Staged-Charged g found spent (cursor {t} {u} {token} r uuid operation scope position e) =
    Charged-same (Staged-Charged g found spent r)
      (cursor_parts t u uuid operation scope position token e)
Staged-Charged g found spent (write {t} {u} r request artifact revision e) =
    Charged-same (Staged-Charged g found spent r) (write_parts t u request artifact revision e)
Staged-Charged {s} g found spent (bytes {t} {u} r m e) =
    Charged-bytes s t u g (staged_bytes r) m found (Staged-Charged g found spent r) e
