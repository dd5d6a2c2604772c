-- ===== src/Store/Receipts/Budget.antt =====
-- The cumulative limit of a grant bounds what all its queries have been served.
use open_chronicle_next.Base.{
  ℕ, ◌+◌, ◌≤◌, ◌≡◌, subst, inl, inr, true, ◌&&◌, some, arith, ◌==◌, if◌then◌else◌, Bool-cases,
}
use open_chronicle_next.Base.Outcome.{is_ok}
use open_chronicle_next.Domain.Grant.{DisclosureGrant}
use open_chronicle_next.Store.Receipts.Lookup.{find-set}
use open_chronicle_next.Store.Receipts.Lifecycle.{
  Descends, Descends-refl, with_spent, Descends-trans, placed_id,
}
use open_chronicle_next.Store.Receipts.Calls.{Files, lookup, grants_of}
use open_chronicle_next.Store.Receipts.Commit.{commit_with_faults}
use open_chronicle_next.Store.Receipts.Staging.{staged_bytes}
use open_chronicle_next.Store.Receipts.Trace.{
  Step, installs, revokes, begins, commits, regenerates, Reach, here, next, Step-Extends,
  commit-Charges,
}
use open_chronicle_next.Store.Receipts.Soundness.{sound, Reach-sound, sound-budget}

-- The bytes that one step has served under the grant: those that a session under it had staged,
-- if its commit succeeded.
pub step_served : (id : ℕ) {w w' : Files} → Step w w' → ℕ
step_served id {w} (commits {s} {t} os j client expected now faults begun r e) =
    if (j == id) && is_ok (commit_with_faults os t faults w).0 then staged_bytes r else 0
step_served id (installs os g now e) = 0
step_served id (revokes os j expected now e) = 0
step_served id (begins os j client expected now e) = 0
step_served id (regenerates e) = 0

pub served : (id : ℕ) {w w' : Files} → Reach w w' → ℕ
served id here = 0
served id (next r st) = served id r + step_served id st

-- A step raises the disclosed bytes on disk by what it has served, at least.
Step-spends :
    (id : ℕ) {w w' : Files} (st : Step w w') (g : DisclosureGrant)
    → lookup id w ≡ some g
    → (g' : DisclosureGrant) × (lookup id w' ≡ some g')
      × Descends g g'
      × (g.disclosed_bytes + step_served id st ≤ g'.disclosed_bytes)
unfolding step_served
Step-spends id {w} (installs os g now e) x found =
    let (x', found', later) = Step-Extends (installs os g now e) id x found in
    (x', found', later, omega (arith, later.spent))
Step-spends id (revokes os j expected now e) x found =
    let (x', found', later) = Step-Extends (revokes os j expected now e) id x found in
    (x', found', later, omega (arith, later.spent))
Step-spends id (begins os j client expected now e) x found =
    let (x', found', later) = Step-Extends (begins os j client expected now e) id x found in
    (x', found', later, omega (arith, later.spent))
Step-spends id {w} {w'} (regenerates e) x found =
    let (x', found', later) = Step-Extends {w = w} {w' = w'} (regenerates e) id x found in
    (x', found', later, omega (arith, later.spent))
Step-spends id {w} {w'} (commits {s} {t} os j client expected now faults begun r e) x found =
    let c = commit-Charges os j client expected now faults w begun r in
    let (at_place, carries) = placed_id j c.index (grants_of w) c.grant c.placed c.found in
    elim c.outcome [
      | inl (same, failed) ↦ (x, ground arith, Descends-refl x, ground arith)
      | inr charged ↦
          let new : DisclosureGrant = record (c.grant) {
            disclosed_bytes = c.grant.disclosed_bytes + staged_bytes r;
          } in
          let hit = find-set id j c.index new (grants_of w) c.placed carries in
          elim (Bool-cases (id == j)) [
            | inl own ↦
                let same_grant : c.grant ≡ x = ground arith in
                (
                  new,
                  ground arith,
                  subst (λ y. Descends y new) same_grant (with_spent c.grant (staged_bytes r)),
                  ground arith,
                )
            | inr other ↦ (x, ground arith, Descends-refl x, ground arith)
          ]
    ]

spends :
    (id : ℕ) {w w' : Files} (r : Reach w w') (g : DisclosureGrant)
    → lookup id w ≡ some g
    → (g' : DisclosureGrant) × (lookup id w' ≡ some g')
      × Descends g g'
      × (g.disclosed_bytes + served id r ≤ g'.disclosed_bytes)
unfolding served
spends id here g found = (g, found, Descends-refl g, omega arith)
spends id (next r st) g found =
    let (h, foundh, laterh, m) = spends id r g found in
    let (k, foundk, laterk, n) = Step-spends id st h foundh in
    (k, foundk, Descends-trans laterh laterk, omega (arith, m, n))

-- From sound files, whatever is called: what a grant had disclosed and the bytes that its committed
-- queries have been served since come to no more than its cumulative limit.
pub served-le-limit :
    (id : ℕ) {w w' : Files} (g : DisclosureGrant) (r : Reach w w')
    → sound w ≡ true
    → lookup id w ≡ some g
    → g.disclosed_bytes + served id r ≤ g.limits.max_cumulative_bytes
served-le-limit id {w} {w'} g r h found =
    let (k, foundk, later, n) = spends id r g found in
    let bound = sound-budget id w' k (Reach-sound r h) foundk in ground (arith, later.limits)
