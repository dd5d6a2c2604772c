-- ===== src/Store/Receipts/Soundness.antt =====
-- No call puts a document on disk that `load` would refuse.
use open_chronicle_next.Base.{
  ℕ, ◌≤◌, ◌≡◌, subst, inl, inr, Bool, true, none, some, List, [], ◌∷◌, arith, find, get_elem?, set,
  Option-cases,
}
use open_chronicle_next.Base.Outcome.{ok, is_ok, Result-cases}
use open_chronicle_next.Domain.Time.{Instant}
use open_chronicle_next.Domain.Grant.{DisclosureGrant, expired, is_active, limits_disagree}
use open_chronicle_next.Domain.Grant
use open_chronicle_next.Store.World.{Platform, load_generation, calm}
use open_chronicle_next.Store.Receipts.Document.{DisclosureReceiptDocument, validate_grants}
use open_chronicle_next.Store.Receipts.Document
use open_chronicle_next.Store.Receipts.Ledger.{
  load, install, revoke, begin_query, opened, retire, with_grant, without_grant, pruned, same_grant,
  position,
}
use open_chronicle_next.Store.Receipts.Calls.{Files, lookup, load_cases, persist_cases}
use open_chronicle_next.Store.Receipts.Trace.{
  Step, installs, revokes, begins, commits, regenerates, Reach, here, next, commit_cases,
}

-- What is on disk, if anything is, passes the validation that `load` applies.
abbrev pub sound : Files → Bool
sound w = elim w.receipts [ none ↦ true | some d ↦ is_ok (Document.validate d) ]

install-sound :
    (os : Platform) (g : DisclosureGrant) (now : Instant) (w : Files)
    → sound w ≡ true
    → sound (install os g now w).1 ≡ true
unfolding install load_generation
install-sound os g now w h =
    let (kept, same) = load_cases os now w in
    elim (Result-cases (load os now w).0) [
      | inr (e, failed) ↦ ground arith
      | inl (d, loaded) ↦ ground (arith, persist_cases os (with_grant d g) now w)
    ]

revoke-sound :
    (os : Platform) (id expected : ℕ) (now : Instant) (w : Files)
    → sound w ≡ true
    → sound (revoke os id expected now w).1 ≡ true
unfolding revoke load_generation
revoke-sound os id expected now w h =
    let (kept, same) = load_cases os now w in
    elim (Result-cases (load os now w).0) [
      | inr (e, failed) ↦ ground arith
      | inl (d, loaded) ↦ ground (arith, persist_cases os (without_grant d id) now w)
    ]

opened-sound :
    (os : Platform) (d : DisclosureReceiptDocument) (i : ℕ) (g : DisclosureGrant) (now : Instant)
    (w : Files)
    → sound w ≡ true
    → sound (opened os d i g now w).1 ≡ true
unfolding opened retire
opened-sound os d i g now w h = ground (
  arith,
  persist_cases os (record d { grants = set d.grants i (record g { state = expired }) }) now w,
)

begin_query-sound :
    (os : Platform) (id client expected : ℕ) (now : Instant) (w : Files)
    → sound w ≡ true
    → sound (begin_query os id client expected now w).1 ≡ true
unfolding begin_query load_generation
begin_query-sound os id client expected now w h =
    let (kept, same) = load_cases os now w in
    elim (Result-cases (load os now w).0) [
      | inr (e, failed) ↦ ground arith
      | inl (d, loaded) ↦ elim (Option-cases (position id d.grants)) [
        | inl missing ↦ ground arith
        | inr (i, placed) ↦ elim (Option-cases (get_elem? d.grants i)) [
          | inl missing ↦ ground arith
          | inr (g, found) ↦ ground (arith, opened-sound os (pruned d expected now) i g now w h)
        ]
      ]
    ]

pub Step-sound : {w w' : Files} → Step w w' → sound w ≡ true → sound w' ≡ true
Step-sound {w} (installs os g now e) h = subst (λ v. sound v ≡ true) e (install-sound os g now w h)
Step-sound {w} (revokes os id expected now e) h =
    subst (λ v. sound v ≡ true) e (revoke-sound os id expected now w h)
Step-sound {w} (begins os id client expected now e) h =
    subst (λ v. sound v ≡ true) e (begin_query-sound os id client expected now w h)
Step-sound {w} (commits {s} {t} os id client expected now faults begun r e) h =
    ground (arith, commit_cases os t faults w)
Step-sound (regenerates e) h = ground arith

pub Reach-sound : {w w' : Files} → Reach w w' → sound w ≡ true → sound w' ≡ true
Reach-sound here h = h
Reach-sound (next r st) h = Step-sound st (Reach-sound r h)

-- From a sound document the receipts load whenever the platform can read them.
load-sound : (now : Instant) (w : Files) → sound w ≡ true → is_ok (load calm now w).0 ≡ true
unfolding load
load-sound now w h = ground arith

-- From files whose receipts are valid, or absent, and whatever is called, the receipts load at every
-- instant at which the platform can read them.
pub Reach-loads :
    {w w' : Files} (now : Instant) → Reach w w' → sound w ≡ true → is_ok (load calm now w').0 ≡ true
Reach-loads {w} {w'} now r h = load-sound now w' (Reach-sound r h)

-- A valid grant has disclosed no more than its cumulative limit.
valid_budget :
    (g : DisclosureGrant)
    → Grant.validate g ≡ ok tt
    → g.disclosed_bytes ≤ g.limits.max_cumulative_bytes
unfolding Grant.validate
valid_budget g h = ground arith

grants_budget :
    (id : ℕ) (gs : List DisclosureGrant) (g : DisclosureGrant)
    → validate_grants gs ≡ ok tt
    → find (same_grant id) gs ≡ some g
    → g.disclosed_bytes ≤ g.limits.max_cumulative_bytes
unfolding validate_grants
grants_budget id [] g h f = ground arith
grants_budget id (x ∷ gs) g h f = ground (arith, valid_budget x, grants_budget id gs g)

pub sound-budget :
    (id : ℕ) (w : Files) (g : DisclosureGrant)
    → sound w ≡ true
    → lookup id w ≡ some g
    → g.disclosed_bytes ≤ g.limits.max_cumulative_bytes
unfolding Document.validate
sound-budget id w g h f = elim (Option-cases w.receipts) [
  | inl missing ↦ ground arith
  | inr (d, stored) ↦ ground (arith, grants_budget id d.grants g)
]
