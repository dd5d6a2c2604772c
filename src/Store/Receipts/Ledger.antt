-- ===== src/Store/Receipts/Ledger.antt =====
-- crates/chronicle-store/src/receipts.rs: `GrantReceiptStore`. One call runs under the shared store
-- lock and the receipts lock, so it is one action on the files.
use open_chronicle_next.Base.{
  ℕ, suc, ◌+◌, Bool, true, false, ◌&&◌, ◌||◌, not, Option, none, some, List, [], ◌∷◌, ◌++◌, any,
  retain, find, ltb, leb, ◌==◌, if◌then◌else◌, get_elem?, set, min,
}
use open_chronicle_next.Base.Sort.{sort}
use open_chronicle_next.Base.Outcome.{ok, map_err, ok_or}
use open_chronicle_next.Domain.Time.{Instant}
use open_chronicle_next.Domain.Grant.{
  DisclosureGrant, GrantState, active, revoked, expired, is_active, is_active_at,
}
use open_chronicle_next.Domain.Grant
use open_chronicle_next.Store.Errors.{
  invalid_path, grant_already_exists, stale_generation, grant_not_found, grant_inactive,
  grant_client_mismatch,
}
use open_chronicle_next.Store.World.{
  Action, Platform, pure, raise, lift, refuse, ◌>>=◌, ◌>>◌, load_generation,
  atomic_write_with_boundary,
}
use open_chronicle_next.Store.Receipts.Document.{DisclosureReceiptDocument, empty}
use open_chronicle_next.Store.Receipts.Document

abbrev pub ReceiptAction : Type 0 → Type 0
ReceiptAction = Action DisclosureReceiptDocument

-- `GrantReceiptStore::load`.
unfoldable pub load : Platform → Instant → ReceiptAction DisclosureReceiptDocument
load os now = do
  lift os.read_receipts
  (λ w. elim w.receipts [
    | none ↦ (ok (empty now), w)
    | some d ↦ (lift (Document.validate d) >> pure d) w
  ])

-- `GrantReceiptStore::persist`; `commit_with_faults` has its own boundary after the rename.
unfoldable pub persist : Platform → DisclosureReceiptDocument → Instant → ReceiptAction (Unit {0})
persist os d now = do
  let dated = record d { updated_at = now }
  lift (Document.validate dated)
  atomic_write_with_boundary os dated (ok tt)

abbrev pub same_grant : ℕ → DisclosureGrant → Bool
same_grant id g = g.grant_id == id

abbrev collides : DisclosureGrant → DisclosureGrant → Bool
collides new old = old.grant_id == new.grant_id || old.receipt_id == new.receipt_id

-- The document that `install` writes.
abbrev pub with_grant : DisclosureReceiptDocument → DisclosureGrant → DisclosureReceiptDocument
with_grant d g = record d { grants = sort (λ x. x.grant_id) (d.grants ++ g ∷ []) }

-- `GrantReceiptStore::install`.
unfoldable pub install : Platform → DisclosureGrant → Instant → ReceiptAction (Unit {0})
install os g now = do
  lift (map_err invalid_path (Grant.validate g))
  refuse (not (is_active g.state) || not (g.disclosed_bytes == 0))
      (invalid_path "new grants must be active with zero disclosed bytes")
  lift os.shared_request
  generation ← load_generation
  refuse (not (g.store_generation == generation.generation))
      (stale_generation g.store_generation generation.generation)
  lift os.grant_receipts
  document ← load os now
  refuse (any (collides g) document.grants) grant_already_exists
  persist os (with_grant document g) now

-- `iter_mut().find(…)`, and a change of the entry that is found.
unfoldable pub update_first :
    ℕ → (DisclosureGrant → DisclosureGrant) → List DisclosureGrant → List DisclosureGrant
update_first id f [] = []
update_first id f (g ∷ gs) = if same_grant id g then f g ∷ gs else g ∷ update_first id f gs

-- The document that `revoke` writes.
abbrev pub without_grant : DisclosureReceiptDocument → ℕ → DisclosureReceiptDocument
without_grant d id = record d {
  grants = update_first id (λ g. record g { state = revoked }) d.grants;
  cursors = retain (λ c. not (c.grant_id == id)) d.cursors;
  derived_writes = retain (λ w. not (w.grant_id == id)) d.derived_writes;
}

-- `GrantReceiptStore::revoke`.
unfoldable pub revoke : Platform → ℕ → ℕ → Instant → ReceiptAction (Unit {0})
revoke os id expected now = do
  lift os.shared_request
  generation ← load_generation
  refuse (not (generation.generation == expected)) (stale_generation expected generation.generation)
  lift os.grant_receipts
  document ← load os now
  found ← lift (ok_or (find (same_grant id) document.grants) grant_not_found)
  persist os (without_grant document id) now

-- `GrantReceiptStore::grant`.
unfoldable pub grant : Platform → ℕ → Instant → ReceiptAction DisclosureGrant
grant os id now = do
  lift os.grant_receipts
  document ← load os now
  lift (ok_or (find (same_grant id) document.grants) grant_not_found)

-- `Iterator::position`.
unfoldable pub position : ℕ → List DisclosureGrant → Option ℕ
position id [] = none
position id (g ∷ gs) =
    let rest : Option ℕ = elim (position id gs) [ none ↦ none | some i ↦ some (suc i) ] in
    if same_grant id g then some 0 else rest

-- `GrantQuerySession`, which holds both locks until it is dropped.
pub record GrantQuerySession : Type 0 where
  pub document : DisclosureReceiptDocument
  pub grant_index : ℕ
  pub original_disclosed_bytes : ℕ
  pub now : Instant

-- What `begin_query` drops before it looks at the grant.
abbrev pub pruned : DisclosureReceiptDocument → ℕ → Instant → DisclosureReceiptDocument
pruned d generation now = record d {
  cursors = retain (λ c. ltb now c.expires_at && c.store_generation == generation) d.cursors;
  derived_writes = retain (λ w. w.store_generation == generation) d.derived_writes;
}

-- A grant that has run out while active is marked expired on disk, at the place where it stands.
unfoldable pub retire :
    Platform → DisclosureReceiptDocument → ℕ → DisclosureGrant → Instant → ReceiptAction (Unit {0})
retire os d index g now =
    if is_active g.state && leb g.expires_at now
    then persist os (record d { grants = set d.grants index (record g { state = expired }) }) now
    else pure tt

-- The end of `begin_query`, on the grant that it has found.
unfoldable pub opened :
    Platform
    → DisclosureReceiptDocument
    → ℕ
    → DisclosureGrant
    → Instant
    → ReceiptAction GrantQuerySession
opened os document index g now =
    if is_active_at g now
    then pure (record {
      document = document;
      grant_index = index;
      original_disclosed_bytes = g.disclosed_bytes;
      now = now;
    })
    else (retire os document index g now >> raise grant_inactive)

-- `GrantReceiptStore::begin_query`.
unfoldable pub begin_query : Platform → ℕ → ℕ → ℕ → Instant → ReceiptAction GrantQuerySession
begin_query os id client expected now = do
  lift os.shared_request
  generation ← load_generation
  refuse (not (generation.generation == expected)) (stale_generation expected generation.generation)
  lift os.grant_receipts
  stored ← load os now
  let document = pruned stored expected now
  index ← lift (ok_or (position id document.grants) grant_not_found)
  g ← lift (ok_or (get_elem? document.grants index) grant_not_found)
  refuse (not (g.client_id == client)) grant_client_mismatch
  refuse (not (g.store_generation == expected)) (stale_generation g.store_generation expected)
  opened os document index g now

-- `McpHealthSummary` of crates/chronicle-domain/src/health.rs.
pub record McpHealthSummary : Type 0 where
  pub active_grants : ℕ
  pub revoked_grants : ℕ
  pub expired_grants : ℕ
  pub exhausted_grants : ℕ
  pub stale_generation_grants : ℕ

-- `u32::saturating_add(1)`.
abbrev pub bump_u32 : ℕ → ℕ
bump_u32 n = min (n + 1) 4294967295

-- The `match` on the grant's state.
abbrev tally_state : GrantState → Bool → McpHealthSummary → McpHealthSummary
tally_state active true s = record s { active_grants = bump_u32 s.active_grants }
tally_state active false s = record s { expired_grants = bump_u32 s.expired_grants }
tally_state revoked _ s = record s { revoked_grants = bump_u32 s.revoked_grants }
tally_state expired _ s = record s { expired_grants = bump_u32 s.expired_grants }

abbrev tally_exhausted : DisclosureGrant → McpHealthSummary → McpHealthSummary
tally_exhausted g s =
    if leb g.limits.max_cumulative_bytes g.disclosed_bytes
    then record s { exhausted_grants = bump_u32 s.exhausted_grants }
    else s

-- One round of the loop of `health_summary`.
unfoldable pub tally_grant : Instant → ℕ → McpHealthSummary → DisclosureGrant → McpHealthSummary
tally_grant now generation s g =
    if not (g.store_generation == generation)
    then record s { stale_generation_grants = bump_u32 s.stale_generation_grants }
    else tally_state g.state (is_active_at g now) (tally_exhausted g s)

-- The loop from a summary so far.
unfoldable pub tally : Instant → ℕ → McpHealthSummary → List DisclosureGrant → McpHealthSummary
tally now generation s [] = s
tally now generation s (g ∷ gs) = tally now generation (tally_grant now generation s g) gs

abbrev pub zero_summary : McpHealthSummary
zero_summary = record {
  active_grants = 0;
  revoked_grants = 0;
  expired_grants = 0;
  exhausted_grants = 0;
  stale_generation_grants = 0;
}

-- `GrantReceiptStore::health_summary`.
unfoldable pub health_summary : Platform → Instant → ℕ → ReceiptAction McpHealthSummary
health_summary os now generation = do
  lift os.grant_receipts
  document ← load os now
  pure (tally now generation zero_summary document.grants)
