-- ===== src/Store/Receipts/Cursors.antt =====
-- Page cursors: a token that a query stages is good for its own scope until it expires.
use open_chronicle_next.Base.{
  ℕ, ◌+◌, ◌<◌, ◌≡◌, refl, sym, ap, ◌∙◌, any, find_sound, String, Bool, true, ◌&&◌, inl, inr, none,
  some, List, [], ◌∷◌, ◌++◌, arith, find, retain, find-retain-snoc, ltb, ◌==◌, str_eq, eq_iff,
  get_elem?, Option-cases,
}
use open_chronicle_next.Base.Outcome.{ok, is_ok}
use open_chronicle_next.Domain.Time.{Instant, seconds}
use open_chronicle_next.Domain.Query.{QueryOperationKind, kind_eq}
use open_chronicle_next.Domain.Grant.{DisclosureGrant, is_active_at}
use open_chronicle_next.Store.Errors.{FaultInjector}
use open_chronicle_next.Store.World.{Platform}
use open_chronicle_next.Store.Receipts.Document.{DisclosureCursorReceipt, cursor_lifetime_seconds}
use open_chronicle_next.Store.Receipts.Ledger.{
  GrantQuerySession, same_grant, begin_query, pruned, position,
}
use open_chronicle_next.Store.Receipts.Session.{current, resolve_cursor, stage_cursor, new_cursor}
use open_chronicle_next.Store.Receipts.Commit.{commit_with_faults}
use open_chronicle_next.Store.Receipts.Lifecycle.{placed_id}
use open_chronicle_next.Store.Receipts.Calls.{Files, Begun, begin_query-Begun, lookup, on_disk}
use open_chronicle_next.Store.Receipts.Trace.{commit_cases}

abbrev pub by_token : String → DisclosureCursorReceipt → Bool
by_token token c = str_eq c.token token

-- What a session's document holds after `stage_cursor`.
staged_cursor :
    (t u : GrantQuerySession) (uuid : String) (operation : QueryOperationKind)
    (scope position token : String) (g : DisclosureGrant)
    → current t ≡ ok g
    → stage_cursor t uuid operation scope position ≡ ok (token, u)
    → u.document.cursors
      ≡ t.document.cursors ++ new_cursor g token operation scope position t.now ∷ []
unfolding stage_cursor
staged_cursor t u uuid operation scope position token g here h = ground arith

-- A cursor of that token, for that grant, client, operation and scope, of that generation, which is
-- good at an instant and holds a position.
abbrev pub is_issued :
    (token : String) (id client generation : ℕ) (operation : QueryOperationKind)
    (scope position : String) (now : Instant)
    → DisclosureCursorReceipt
    → Bool
is_issued token id client generation operation scope position now c =
    str_eq c.token token
    && c.grant_id == id
    && c.client_id == client
    && c.store_generation == generation
    && kind_eq c.operation operation
    && str_eq c.scope_digest scope
    && ltb now c.expires_at
    && str_eq c.position position

any-retain :
    (p q r : DisclosureCursorReceipt → Bool) (cs : List DisclosureCursorReceipt)
    (c : DisclosureCursorReceipt)
    → find p (retain q cs) ≡ some c
    → r c ≡ true
    → any r cs ≡ true
any-retain p q r [] c h k = absurd (ground arith)
any-retain p q r (x ∷ xs) c h k = ground (arith, any-retain p q r xs c)

resolved :
    (s : GrantQuerySession) (token : String) (operation : QueryOperationKind)
    (scope position : String) (g : DisclosureGrant)
    → resolve_cursor s token operation scope ≡ ok position
    → get_elem? s.document.grants s.grant_index ≡ some g
    → (c : DisclosureCursorReceipt) × (find (by_token token) s.document.cursors ≡ some c)
      × (is_issued token g.grant_id g.client_id g.store_generation operation scope position s.now c
          ≡ true)
unfolding resolve_cursor current
resolved s token operation scope position g h here =
    elim (Option-cases (find (by_token token) s.document.cursors)) [
      | inl missing ↦ absurd (ground arith)
      | inr (c, found) ↦
          let named = find_sound (by_token token) s.document.cursors c found in
          let same = (eq_iff c.position position).1 in
          (c, found, ground (arith, h, here, found, named, same))
    ]

-- A query that begins and resolves a cursor does so for an active grant of its caller on disk, and
-- on disk there is that cursor: it was issued to the same grant and client, for the same operation
-- and scope and in the same generation, it has not expired, and it holds the position.
pub resolve_cursor-begin_query :
    (os : Platform) (id client expected : ℕ) (now : Instant) (w : Files) (s : GrantQuerySession)
    (token : String) (operation : QueryOperationKind) (scope position : String)
    → (begin_query os id client expected now w).0 ≡ ok s
    → resolve_cursor s token operation scope ≡ ok position
    → (g : DisclosureGrant) × (lookup id w ≡ some g)
      × (g.client_id ≡ client)
      × (is_active_at g now ≡ true)
      × (any
            (is_issued token id client expected operation scope position now)
            (on_disk now w).cursors
          ≡ true)
resolve_cursor-begin_query os id client expected now w s token operation scope position begun h =
    let b = begin_query-Begun os id client expected now w s begun in
    let (at_place, carries) =
      placed_id id s.grant_index s.document.grants b.grant b.placed b.found in
    let (c, found, issued) = resolved s token operation scope position b.grant h b.found in
    let grants = ap (λ d. d.grants) b.document ∙ b.grants in
    let cursors = ap (λ d. d.cursors) (b.document ∙ ap (λ d. pruned d expected now) b.read) in
    let hit =
      any-retain (by_token token) (λ x. ltb now x.expires_at && x.store_generation == expected)
        (is_issued token id client expected operation scope position now) (on_disk now w).cursors c
        (ap (λ cs. find (by_token token) cs) (sym cursors) ∙ found)
        (ground (arith, issued, carries, b.caller, b.generation, b.instant)) in
    (b.grant, ap (λ gs. find (same_grant id) gs) (sym grants) ∙ at_place, b.caller, b.live, hit)

-- In a pruned document the new cursor is found until it expires.
find_staged :
    (cs : List DisclosureCursorReceipt) (g : DisclosureGrant) (token : String)
    (operation : QueryOperationKind) (scope position : String) (staged later : Instant)
    → find (by_token token) cs ≡ none
    → later < staged + seconds cursor_lifetime_seconds
    → later < g.expires_at
    → let c = new_cursor g token operation scope position staged in
      find (by_token token) (
        retain
          (λ x. ltb later x.expires_at && x.store_generation == g.store_generation)
          (cs ++ c ∷ []))
      ≡ some c
find_staged cs g token operation scope position staged later unused early live =
    let c = new_cursor g token operation scope position staged in
    ground (
      arith,
      find-retain-snoc (by_token token)
          (λ x. ltb later x.expires_at && x.store_generation == g.store_generation) cs c unused
          ((eq_iff token token).1 refl),
    )

-- A cursor that a query stages under an unused token and commits is resolved by the next query
-- under the same grant, for the same operation and scope, as long as neither an hour has passed
-- nor the grant has expired; it gives the position that was staged.
pub resolve-stage_cursor :
    (os os' : Platform) (t u s : GrantQuerySession) (w : Files) (faults : FaultInjector)
    (uuid : String) (operation : QueryOperationKind) (scope position token : String)
    (g : DisclosureGrant) (later : Instant)
    → current t ≡ ok g
    → find (by_token token) t.document.cursors ≡ none
    → stage_cursor t uuid operation scope position ≡ ok (token, u)
    → is_ok (commit_with_faults os u faults w).0 ≡ true
    → (begin_query os' g.grant_id g.client_id g.store_generation later
        (commit_with_faults os u faults w).1).0
      ≡ ok s
    → later < t.now + seconds cursor_lifetime_seconds
    → later < g.expires_at
    → resolve_cursor s token operation scope ≡ ok position
unfolding resolve_cursor current
resolve-stage_cursor os os' t u s w faults uuid operation scope position token g later here unused
      staged committed begun early live =
    ground (arith, found, b.found, carries, b.caller, b.generation, b.instant, eq_iff scope scope)
  where
    v : Files
    v = (commit_with_faults os u faults w).1

    b :
        Begun g.grant_id g.client_id g.store_generation later v
          (begin_query os' g.grant_id g.client_id g.store_generation later v).1
          s
    b = begin_query-Begun os' g.grant_id g.client_id g.store_generation later v s begun

    carries : b.grant.grant_id ≡ g.grant_id
    carries = (placed_id g.grant_id s.grant_index s.document.grants b.grant b.placed b.found).1

    cursors : on_disk later v ≡ record (u.document) { updated_at = u.now }
    cursors = ground (arith, commit_cases os u faults w)

    found :
        find (by_token token) s.document.cursors
        ≡ some (new_cursor g token operation scope position t.now)
    found =
        ap (λ d. find (by_token token) d.cursors)
          (b.document ∙ ap (λ d. pruned d g.store_generation later) (b.read ∙ cursors))
        ∙ ap
            (λ cs.
              find (by_token token) (
                retain (λ x. ltb later x.expires_at && x.store_generation == g.store_generation)
                  cs))
            (staged_cursor t u uuid operation scope position token g here staged)
        ∙ find_staged t.document.cursors g token operation scope position t.now later unused early
            live
