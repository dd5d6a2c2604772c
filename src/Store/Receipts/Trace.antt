-- ===== src/Store/Receipts/Trace.antt =====
-- Histories of calls on one managed root. The locks make each call, and each session from
-- `begin_query` to `commit`, one step; a session that is dropped has written nothing more.
use open_chronicle_next.Base.{
  ℕ, ◌+◌, ◌≤◌, ◌≡◌, subst, ap, ◌∙◌, ◌⊎◌, inl, inr, Bool, false, some, List, arith, get_elem?, set,
}
use open_chronicle_next.Base.Outcome.{ok, is_ok}
use open_chronicle_next.Domain.Time.{Instant}
use open_chronicle_next.Domain.Grant.{DisclosureGrant}
use open_chronicle_next.Store.Errors.{FaultInjector, check}
use open_chronicle_next.Store.World.{Platform, atomic_write_with_boundary}
use open_chronicle_next.Store.Receipts.Document.{DisclosureReceiptDocument}
use open_chronicle_next.Store.Receipts.Document
use open_chronicle_next.Store.Receipts.Ledger.{
  GrantQuerySession, install, revoke, begin_query, position,
}
use open_chronicle_next.Store.Receipts.Session.{prepare_commit}
use open_chronicle_next.Store.Receipts.Commit.{commit_with_faults}
use open_chronicle_next.Store.Receipts.Calls.{Files, grants_of, lookup, Begun, begin_query-Begun}
use open_chronicle_next.Store.Receipts.Staging.{Staged, staged_bytes, Charged, Staged-Charged}
use open_chronicle_next.Store.Receipts.Lifecycle.{
  Descends, Extends, Extends-refl, Extends-trans, Extends-set, with_spent,
}
use open_chronicle_next.Store.Receipts.History.{
  install-Extends, revoke-Extends, begin_query-Extends,
}

pub data Step (w : Files) : Files → Type 0 where
  installs :
      {w' : Files} (os : Platform) (g : DisclosureGrant) (now : Instant)
      → (install os g now w).1 ≡ w'
      → Step w w'
  revokes :
      {w' : Files} (os : Platform) (id expected : ℕ) (now : Instant)
      → (revoke os id expected now w).1 ≡ w'
      → Step w w'
  begins :
      {w' : Files} (os : Platform) (id client expected : ℕ) (now : Instant)
      → (begin_query os id client expected now w).1 ≡ w'
      → Step w w'
  commits :
      {w' : Files} {s t : GrantQuerySession} (os : Platform) (id client expected : ℕ)
      (now : Instant) (faults : FaultInjector)
      → (begin_query os id client expected now w).0 ≡ ok s
      → Staged s t
      → (commit_with_faults os t faults w).1 ≡ w'
      → Step w w'
  regenerates : {w' : Files} → w'.receipts ≡ w.receipts → Step w w'

pub data Reach (w : Files) : Files → Type 0 where
  here : Reach w w
  next : {u v : Files} → Reach w u → Step u v → Reach w v

-- A commit leaves the files as they were, or puts the valid dated document there; it does the
-- latter where it succeeds.
pub commit_cases :
    (os : Platform) (t : GrantQuerySession) (faults : FaultInjector) (w : Files)
    → (((commit_with_faults os t faults w).1 ≡ w)
        × (is_ok (commit_with_faults os t faults w).0 ≡ false))
      ⊎ ((Document.validate (record (t.document) { updated_at = t.now }) ≡ ok tt)
          × ((commit_with_faults os t faults w).1
              ≡ record w { receipts = some (record (t.document) { updated_at = t.now }) }))
unfolding commit_with_faults atomic_write_with_boundary prepare_commit check
commit_cases os t faults w = ground arith

-- What a committed session does to the grants of `w`: nothing, or it charges its bytes to one grant.
pub record Charges (id n : ℕ) (now : Instant) (succeeded : Bool) (gs gs' : List DisclosureGrant)
    : Type 0 where
  pub index : ℕ
  pub grant : DisclosureGrant
  pub placed : position id gs ≡ some index
  pub found : get_elem? gs index ≡ some grant
  pub response : n ≤ grant.limits.max_response_bytes
  pub outcome :
      ((gs' ≡ gs) × (succeeded ≡ false))
      ⊎ (gs' ≡ set gs index (record grant { disclosed_bytes = grant.disclosed_bytes + n }))

module _ (os : Platform) (id client expected : ℕ) (now : Instant) (faults : FaultInjector)
    (w : Files) {s t : GrantQuerySession}
    (begun : (begin_query os id client expected now w).0 ≡ ok s) (r : Staged s t) where
  pub commit-Charges :
      Charges id
        (staged_bytes r)
        now
        (is_ok (commit_with_faults os t faults w).0)
        (grants_of w)
        (grants_of (commit_with_faults os t faults w).1)
  commit-Charges = record {
    index = s.grant_index;
    grant = b.grant;
    placed = subst (λ gs. position id gs ≡ some s.grant_index) same b.placed;
    found = subst (λ gs. get_elem? gs s.grant_index ≡ some b.grant) same b.found;
    response = c.response;
    outcome = elim (commit_cases os t faults w) [
      | inl (files, failed) ↦ inl (ap grants_of files, failed)
      | inr (valid, files) ↦ inr (ap grants_of files ∙ c.grants ∙ charge same b.original)
    ];
  }
    where
      b : Begun id client expected now w (begin_query os id client expected now w).1 s
      b = begin_query-Begun os id client expected now w s begun

      c : Charged s t b.grant (staged_bytes r)
      c = Staged-Charged b.grant b.found b.original r

      charge :
          {gs hs : List DisclosureGrant} {m k : ℕ}
          → gs ≡ hs
          → m ≡ k
          → set gs s.grant_index (record (b.grant) { disclosed_bytes = m + staged_bytes r })
            ≡ set hs s.grant_index (record (b.grant) { disclosed_bytes = k + staged_bytes r })
      charge p q =
          λ i. set (p i) s.grant_index (record (b.grant) { disclosed_bytes = q i + staged_bytes r })

      same : s.document.grants ≡ grants_of w
      same = ap (λ d. d.grants) b.document ∙ b.grants

  pub commit-Extends : Extends (grants_of w) (grants_of (commit_with_faults os t faults w).1)
  commit-Extends = elim c.outcome [
    | inl (same, failed) ↦ rw same (Extends-refl (grants_of w))
    | inr charged ↦ rw charged (
        Extends-set id c.index (grants_of w) c.grant _ c.placed c.found
          (with_spent c.grant (staged_bytes r)))
  ]
    where
      c :
          Charges id
            (staged_bytes r)
            now
            (is_ok (commit_with_faults os t faults w).0)
            (grants_of w)
            (grants_of (commit_with_faults os t faults w).1)
      c = commit-Charges

pub Step-Extends : {w w' : Files} → Step w w' → Extends (grants_of w) (grants_of w')
Step-Extends {w} (installs os g now e) =
    subst (λ v. Extends (grants_of w) (grants_of v)) e (install-Extends os g now w)
Step-Extends {w} (revokes os id expected now e) =
    subst (λ v. Extends (grants_of w) (grants_of v)) e (revoke-Extends os id expected now w)
Step-Extends {w} (begins os id client expected now e) =
    subst (λ v. Extends (grants_of w) (grants_of v)) e
      (begin_query-Extends os id client expected now w)
Step-Extends {w} (commits os id client expected now faults begun r e) =
    subst (λ v. Extends (grants_of w) (grants_of v)) e
      (commit-Extends os id client expected now faults w begun r)
Step-Extends {w} {w'} (regenerates e) =
    subst (Extends (grants_of w)) (ground arith) (Extends-refl (grants_of w))

pub Reach-Extends : {w w' : Files} → Reach w w' → Extends (grants_of w) (grants_of w')
Reach-Extends {w} here = Extends-refl (grants_of w)
Reach-Extends {w} {w'} (next {u} r st) =
    Extends-trans (grants_of w) (grants_of u) (grants_of w') (Reach-Extends r) (Step-Extends st)

-- Whatever is called, a grant that is on disk stays there under its identifier: its terms do not
-- change, its disclosed bytes do not fall, and its state goes only from active to expired and from
-- either to revoked.
pub Reach-Descends :
    (id : ℕ) {w w' : Files} (g : DisclosureGrant)
    → lookup id w ≡ some g
    → Reach w w'
    → (g' : DisclosureGrant) × (lookup id w' ≡ some g') × Descends g g'
Reach-Descends id g found r = Reach-Extends r id g found
