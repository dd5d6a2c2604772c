-- ===== src/Store/Receipts/Writes.antt =====
-- Derived-write receipts: one request identifier commits one write, and a retry of it is recognised.
use open_chronicle_next.Base.{
  ℕ, ◌≡◌, ap, ◌∙◌, Bool, true, ◌&&◌, some, [], ◌∷◌, ◌++◌, arith, find, find-retain, find-snoc_none,
  ◌==◌, if◌then◌else◌,
}
use open_chronicle_next.Base.Sort.{sort}
use open_chronicle_next.Base.Sort
use open_chronicle_next.Base.Outcome.{Result, ok, err, is_ok}
use open_chronicle_next.Domain.Time.{Instant}
use open_chronicle_next.Domain.Grant.{DisclosureGrant}
use open_chronicle_next.Store.Errors.{StoreError, FaultInjector, stable_id_conflict}
use open_chronicle_next.Store.World.{Platform}
use open_chronicle_next.Store.Receipts.Document.{DerivedWriteReceipt}
use open_chronicle_next.Store.Receipts.Ledger.{GrantQuerySession, begin_query, pruned}
use open_chronicle_next.Store.Receipts.Session.{
  current, derived_write_committed, judge_receipt, stage_derived_write, new_write,
}
use open_chronicle_next.Store.Receipts.Commit.{commit_with_faults}
use open_chronicle_next.Store.Receipts.Lifecycle.{placed_id}
use open_chronicle_next.Store.Receipts.Calls.{Files, Begun, begin_query-Begun, on_disk}
use open_chronicle_next.Store.Receipts.Trace.{commit_cases}

abbrev by_request : ℕ → DerivedWriteReceipt → Bool
by_request request r = r.request_id == request

-- The receipt of a write that has been staged is the one found under its request identifier.
staged_write :
    (t u : GrantQuerySession) (request artifact revision : ℕ) (g : DisclosureGrant)
    → current t ≡ ok g
    → stage_derived_write t request artifact revision ≡ ok u
    → find (by_request request) u.document.derived_writes
      ≡ some (new_write t g request artifact revision)
unfolding stage_derived_write
staged_write t u request artifact revision g here h = ground (
  arith,
  Sort.find-sort (λ (r : DerivedWriteReceipt). r.request_id) request
      (t.document.derived_writes ++ new_write t g request artifact revision ∷ []),
  find-snoc_none (by_request request) t.document.derived_writes
      (new_write t g request artifact revision),
)

-- What a later query says of a request: the same write is committed, any other is a conflict.
abbrev pub retried : ℕ → Bool → Result StoreError Bool
retried request same = if same then ok true else err (stable_id_conflict request)

-- Once a derived write is committed, the next query under the same grant recognises a retry of the
-- same request for the same artifact and revision, and refuses the request identifier for any other.
pub committed-stage_derived_write :
    (os os' : Platform) (t u s : GrantQuerySession) (w : Files) (faults : FaultInjector)
    (request artifact revision : ℕ) (g : DisclosureGrant) (later : Instant)
    → current t ≡ ok g
    → stage_derived_write t request artifact revision ≡ ok u
    → is_ok (commit_with_faults os u faults w).0 ≡ true
    → (begin_query os' g.grant_id g.client_id g.store_generation later
        (commit_with_faults os u faults w).1).0
      ≡ ok s
    → (artifact' revision' : ℕ)
    → derived_write_committed s request artifact' revision'
      ≡ retried request (artifact == artifact' && revision == revision')
unfolding derived_write_committed judge_receipt current
committed-stage_derived_write os os' t u s w faults request artifact revision g later here staged
      committed begun artifact' revision' =
    ground (arith, found, b.found, carries, b.caller, b.generation)
  where
    v : Files
    v = (commit_with_faults os u faults w).1

    b :
        Begun g.grant_id g.client_id g.store_generation later v
          (begin_query os' g.grant_id g.client_id g.store_generation later v).1
          s
    b = begin_query-Begun os' g.grant_id g.client_id g.store_generation later v s begun

    carries : b.grant.grant_id ≡ g.grant_id
    carries = (placed_id g.grant_id s.grant_index s.document.grants b.grant b.placed b.found).1

    cursors : on_disk later v ≡ record (u.document) { updated_at = u.now }
    cursors = ground (arith, commit_cases os u faults w)

    found :
        find (by_request request) s.document.derived_writes
        ≡ some (new_write t g request artifact revision)
    found =
        ap (λ d. find (by_request request) d.derived_writes)
          (b.document ∙ ap (λ d. pruned d g.store_generation later) (b.read ∙ cursors))
        ∙ find-retain (by_request request) (λ x. x.store_generation == g.store_generation)
            u.document.derived_writes (new_write t g request artifact revision)
            (staged_write t u request artifact revision g here staged) (ground arith)
