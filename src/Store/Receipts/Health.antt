-- ===== src/Store/Receipts/Health.antt =====
-- `health_summary` counts each grant under the headings that it belongs to.
use open_chronicle_next.Base.{
  ℕ, ◌+◌, ◌≤◌, ◌≡◌, ap, subst, ◌∙◌, suc, Bool, true, false, ◌&&◌, not, inl, inr, List, [], ◌∷◌,
  arith, length, retain, leb, ◌==◌,
}
use open_chronicle_next.Domain.Time.{Instant}
use open_chronicle_next.Domain.Grant.{DisclosureGrant, GrantState, revoked, is_active_at}
use open_chronicle_next.Base.Outcome.{ok, Result-cases}
use open_chronicle_next.Store.World.{Platform}
use open_chronicle_next.Store.Receipts.Calls.{Files, grants_of, load_cases}
use open_chronicle_next.Store.Receipts.Ledger.{
  McpHealthSummary, tally, tally_grant, zero_summary, health_summary, load,
}

abbrev is_revoked : GrantState → Bool
is_revoked revoked = true
is_revoked _ = false

abbrev pub counts : (DisclosureGrant → Bool) → List DisclosureGrant → ℕ
counts p gs = length (retain p gs)

module _ (now : Instant) (generation : ℕ) where
  abbrev of_generation : DisclosureGrant → Bool
  of_generation g = g.store_generation == generation

  abbrev pub is_usable : DisclosureGrant → Bool
  is_usable g = of_generation g && is_active_at g now

  abbrev pub is_withdrawn : DisclosureGrant → Bool
  is_withdrawn g = of_generation g && is_revoked g.state

  -- Neither usable nor withdrawn, though of this generation.
  abbrev pub is_over : DisclosureGrant → Bool
  is_over g = of_generation g && not (is_active_at g now) && not (is_revoked g.state)

  abbrev pub is_exhausted : DisclosureGrant → Bool
  is_exhausted g = of_generation g && leb g.limits.max_cumulative_bytes g.disclosed_bytes

  abbrev pub is_stale : DisclosureGrant → Bool
  is_stale g = not (of_generation g)

  -- A summary with the grants of a list counted in addition.
  abbrev with_counts : McpHealthSummary → List DisclosureGrant → McpHealthSummary
  with_counts s gs = record {
    active_grants = s.active_grants + counts is_usable gs;
    revoked_grants = s.revoked_grants + counts is_withdrawn gs;
    expired_grants = s.expired_grants + counts is_over gs;
    exhausted_grants = s.exhausted_grants + counts is_exhausted gs;
    stale_generation_grants = s.stale_generation_grants + counts is_stale gs;
  }

  -- No counter is nearer to its limit than `n`.
  record Room (s : McpHealthSummary) (n : ℕ) : Type 0 where
    actives : s.active_grants + n ≤ 4294967295
    revokeds : s.revoked_grants + n ≤ 4294967295
    expireds : s.expired_grants + n ≤ 4294967295
    exhausteds : s.exhausted_grants + n ≤ 4294967295
    stales : s.stale_generation_grants + n ≤ 4294967295

  tally_grant-counts :
      (s : McpHealthSummary) (g : DisclosureGrant)
      → Room s 1
      → tally_grant now generation s g ≡ with_counts s (g ∷ [])
  unfolding tally_grant is_active_at
  tally_grant-counts s g h = ground arith

  Room-step :
      (s : McpHealthSummary) (g : DisclosureGrant) (n : ℕ)
      → Room s (n + 1)
      → Room (with_counts s (g ∷ [])) n
  Room-step s g n h = record {
    actives = ground arith;
    revokeds = ground arith;
    expireds = ground arith;
    exhausteds = ground arith;
    stales = ground arith;
  }

  with_counts-cons :
      (s : McpHealthSummary) (g : DisclosureGrant) (gs : List DisclosureGrant)
      → with_counts (with_counts s (g ∷ [])) gs ≡ with_counts s (g ∷ gs)
  with_counts-cons s g gs = λ i. record {
    active_grants = actives i;
    revoked_grants = revokeds i;
    expired_grants = expireds i;
    exhausted_grants = exhausteds i;
    stale_generation_grants = stales i;
  }
    where
      split :
          (p : DisclosureGrant → Bool) (n : ℕ)
          → n + counts p (g ∷ []) + counts p gs ≡ n + counts p (g ∷ gs)
      split p n = ground arith

      actives :
          s.active_grants + counts is_usable (g ∷ []) + counts is_usable gs
          ≡ s.active_grants + counts is_usable (g ∷ gs)
      actives = split is_usable s.active_grants

      revokeds :
          s.revoked_grants + counts is_withdrawn (g ∷ []) + counts is_withdrawn gs
          ≡ s.revoked_grants + counts is_withdrawn (g ∷ gs)
      revokeds = split is_withdrawn s.revoked_grants

      expireds :
          s.expired_grants + counts is_over (g ∷ []) + counts is_over gs
          ≡ s.expired_grants + counts is_over (g ∷ gs)
      expireds = split is_over s.expired_grants

      exhausteds :
          s.exhausted_grants + counts is_exhausted (g ∷ []) + counts is_exhausted gs
          ≡ s.exhausted_grants + counts is_exhausted (g ∷ gs)
      exhausteds = split is_exhausted s.exhausted_grants

      stales :
          s.stale_generation_grants + counts is_stale (g ∷ []) + counts is_stale gs
          ≡ s.stale_generation_grants + counts is_stale (g ∷ gs)
      stales = split is_stale s.stale_generation_grants

  tally-counts :
      (s : McpHealthSummary) (gs : List DisclosureGrant)
      → Room s (length gs)
      → tally now generation s gs ≡ with_counts s gs
  unfolding tally
  tally-counts s [] h = ground arith
  tally-counts s (g ∷ gs) h =
      ap (λ t. tally now generation t gs) (tally_grant-counts s g (room-one s (length gs) h))
      ∙ tally-counts (with_counts s (g ∷ [])) gs
          (Room-step s g (length gs) (room-all s (length gs) h))
      ∙ with_counts-cons s g gs
    where
      room-one : (s : McpHealthSummary) (n : ℕ) → Room s (suc n) → Room s 1
      room-one s n h = ground arith

      room-all : (s : McpHealthSummary) (n : ℕ) → Room s (suc n) → Room s (n + 1)
      room-all s n h = ground arith

  partition :
      (gs : List DisclosureGrant)
      → counts is_usable gs + counts is_withdrawn gs + counts is_over gs + counts is_stale gs
        ≡ length gs
  unfolding is_active_at
  partition [] = omega arith
  partition (g ∷ gs) = ground (arith, partition gs)

  -- Every counter of the summary counts what it is named for, and four of them share out the grants.
  abbrev pub Counted : McpHealthSummary → List DisclosureGrant → Type 0
  Counted s gs =
      (s.active_grants ≡ counts is_usable gs)
      × (s.revoked_grants ≡ counts is_withdrawn gs)
      × (s.expired_grants ≡ counts is_over gs)
      × (s.exhausted_grants ≡ counts is_exhausted gs)
      × (s.stale_generation_grants ≡ counts is_stale gs)
      × (s.active_grants + s.revoked_grants + s.expired_grants + s.stale_generation_grants
          ≡ length gs)

  tally-Counted :
      (gs : List DisclosureGrant)
      → length gs ≤ 4294967295
      → Counted (tally now generation zero_summary gs) gs
  tally-Counted gs h =
      rw
        (tally-counts zero_summary gs (record {
          actives = omega arith;
          revokeds = omega arith;
          expireds = omega arith;
          exhausteds = omega arith;
          stales = omega arith;
        }))
        (
          omega arith,
          omega arith,
          omega arith,
          omega arith,
          omega arith,
          omega (arith, partition gs),
        )

  -- A summary of fewer than 2^32 grants counts each exactly: a grant of another generation as
  -- stale, any other as active, revoked or expired, and as exhausted besides if its budget is used
  -- up.
  pub health_summary-Counted :
      (os : Platform) (w : Files) (s : McpHealthSummary)
      → (health_summary os now generation w).0 ≡ ok s
      → length (grants_of w) ≤ 4294967295
      → Counted s (grants_of w)
  unfolding health_summary
  health_summary-Counted os w s h few =
      let (kept, same) = load_cases os now w in
      elim (Result-cases (load os now w).0) [
        | inr (e, failed) ↦ absurd (ground arith)
        | inl (d, loaded) ↦
            let grants = same d loaded in
            let result : tally now generation zero_summary (grants_of w) ≡ s = ground arith in
            subst (λ t. Counted t (grants_of w)) result (tally-Counted (grants_of w) few)
      ]
