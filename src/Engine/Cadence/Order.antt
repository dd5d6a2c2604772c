-- ===== src/Engine/Cadence/Order.antt =====
-- The stamps that a guard admits, over a history of calls.
use open_chronicle_next.Base.{
  ℕ, ◌≡◌, ◌≢◌, ◌⊎◌, refl, inl, inr, String, Bool, true, false, ◌&&◌, ◌||◌, not, some, List, [], ◌∷◌,
  arith, every, ltb, str_eq, eq_iff, if◌then◌else◌,
}
use open_chronicle_next.Base.Outcome.{ok, is_ok}
use open_chronicle_next.Engine.Cadence.{
  CadenceStamp, CadenceGuard, observe, observe_event, is_retired, advance, admit, noting,
}

-- The stamps of a history that the guard admits.
unfoldable pub admitted : CadenceGuard → List CadenceStamp → List CadenceStamp
admitted g [] = []
admitted g (s ∷ ss) =
    let rest = admitted (observe g s).1 ss in if is_ok (observe g s).0 then s ∷ rest else rest

abbrev same_boot : CadenceStamp → CadenceStamp → Bool
same_boot s u = str_eq s.boot_sequence u.boot_sequence

abbrev pub elsewhere : String → CadenceStamp → Bool
elsewhere boot u = not (str_eq boot u.boot_sequence)

abbrev after : CadenceStamp → CadenceStamp → Bool
after s u = not (same_boot s u) || ltb s.monotonic_tick u.monotonic_tick

-- A boot sequence that is left does not return.
departs : CadenceStamp → List CadenceStamp → Bool
departs s [] = true
departs s (t ∷ ss) = same_boot s t || every (elsewhere s.boot_sequence) ss

-- Ticks rise within each boot sequence, and each boot sequence is one block of the list.
unfoldable pub in_order : List CadenceStamp → Bool
unfolding departs
in_order [] = true
in_order (s ∷ ss) = every (after s) ss && departs s ss && in_order ss

pub str_eq_refl : (a : String) → str_eq a a ≡ true
str_eq_refl a = (eq_iff a a).1 refl

pub str_eq_sound : (a b : String) → str_eq a b ≡ true → a ≡ b
str_eq_sound a b = (eq_iff a b).0

-- The retired boot sequences stay retired.
observe-keeps_retired :
    (g : CadenceGuard) (s : CadenceStamp) (boot : String)
    → is_retired g boot ≡ true
    → is_retired (observe g s).1 boot ≡ true
unfolding observe advance admit
observe-keeps_retired g s boot h = ground arith

-- No stamp of a retired boot sequence is admitted.
observe-retired :
    (g : CadenceGuard) (s : CadenceStamp) (boot : String)
    → is_retired g boot ≡ true
    → str_eq boot s.boot_sequence ≡ true
    → is_ok (observe g s).0 ≡ false
unfolding observe advance admit
observe-retired g s boot h e = let same = str_eq_sound boot s.boot_sequence e in ground arith

pub admitted-elsewhere :
    (g : CadenceGuard) (boot : String) (ss : List CadenceStamp)
    → is_retired g boot ≡ true
    → every (elsewhere boot) (admitted g ss) ≡ true
unfolding admitted
admitted-elsewhere g boot [] h = refl
admitted-elsewhere g boot (s ∷ ss) h = ground (
  arith,
  observe-retired g s boot,
  observe-keeps_retired g s boot,
  admitted-elsewhere (observe g s).1 boot ss,
)

-- The verdict on a stamp, where `l` was the last one taken: it is left out and the guard keeps `l`
-- or retires its boot sequence, or it is taken.
observe_cases :
    (g : CadenceGuard) (l s : CadenceStamp)
    → g.last ≡ some l
    → ((is_ok (observe g s).0 ≡ false)
        × (((observe g s).1 ≡ g) ⊎ (is_retired (observe g s).1 l.boot_sequence ≡ true)))
      ⊎ ((is_ok (observe g s).0 ≡ true)
          × ((observe g s).1.last ≡ some s)
          × (after l s ≡ true)
          × ((same_boot l s ≡ true) ⊎ (is_retired (observe g s).1 l.boot_sequence ≡ true)))
unfolding observe advance admit
observe_cases g l s h = let self = str_eq_refl l.boot_sequence in ground arith

after_trans :
    (l s u : CadenceStamp)
    → same_boot l s ≡ true
    → ltb l.monotonic_tick s.monotonic_tick ≡ true
    → after s u ≡ true
    → after l u ≡ true
after_trans l s u same rises h =
    let boots = str_eq_sound l.boot_sequence s.boot_sequence same in ground (arith, boots)

every-after :
    (l s : CadenceStamp) (us : List CadenceStamp)
    → same_boot l s ≡ true
    → ltb l.monotonic_tick s.monotonic_tick ≡ true
    → every (after s) us ≡ true
    → every (after l) us ≡ true
every-after l s [] same rises h = refl
every-after l s (u ∷ us) same rises h = ground (arith, after_trans l s u, every-after l s us)

every-elsewhere :
    (l : CadenceStamp) (us : List CadenceStamp)
    → every (elsewhere l.boot_sequence) us ≡ true
    → every (after l) us ≡ true
every-elsewhere l [] h = refl
every-elsewhere l (u ∷ us) h = ground (arith, every-elsewhere l us)

-- What is admitted after `l` comes after it.
admitted-after :
    (g : CadenceGuard) (l : CadenceStamp) (ss : List CadenceStamp)
    → g.last ≡ some l
    → every (after l) (admitted g ss) ≡ true
unfolding admitted
admitted-after g l [] h = refl
admitted-after g l (s ∷ ss) h =
    let g' = (observe g s).1 in
    elim (observe_cases g l s h) [
      | inl (out, inl same) ↦ let rest = admitted-after g' l ss in ground arith
      | inl (out, inr retired) ↦
          let rest =
            every-elsewhere l (admitted g' ss) (admitted-elsewhere g' l.boot_sequence ss retired) in
          ground arith
      | inr (taken, last, order, inl same) ↦
          let rest = admitted-after g' s ss last in
          let further = every-after l s (admitted g' ss) same in ground arith
      | inr (taken, last, order, inr retired) ↦
          let rest =
            every-elsewhere l (admitted g' ss) (admitted-elsewhere g' l.boot_sequence ss retired) in
          ground arith
    ]

departs-elsewhere :
    (l : CadenceStamp) (us : List CadenceStamp)
    → every (elsewhere l.boot_sequence) us ≡ true
    → departs l us ≡ true
unfolding departs
departs-elsewhere l [] h = refl
departs-elsewhere l (u ∷ us) h = ground arith

admitted-departs :
    (g : CadenceGuard) (l : CadenceStamp) (ss : List CadenceStamp)
    → g.last ≡ some l
    → departs l (admitted g ss) ≡ true
unfolding admitted departs
admitted-departs g l [] h = refl
admitted-departs g l (s ∷ ss) h =
    let g' = (observe g s).1 in
    elim (observe_cases g l s h) [
      | inl (out, inl same) ↦ let rest = admitted-departs g' l ss in ground arith
      | inl (out, inr retired) ↦
          let rest =
            departs-elsewhere l (admitted g' ss)
              (admitted-elsewhere g' l.boot_sequence ss retired) in
          ground arith
      | inr (taken, last, order, inl same) ↦ ground arith
      | inr (taken, last, order, inr retired) ↦
          let rest = admitted-elsewhere g' l.boot_sequence ss retired in ground arith
    ]

observe-last :
    (g : CadenceGuard) (s : CadenceStamp)
    → is_ok (observe g s).0 ≡ true
    → (observe g s).1.last ≡ some s
unfolding observe advance admit
observe-last g s h = ground arith

-- Whatever stamps are offered, and from whatever guard, the stamps that `observe` admits are in
-- order: within one boot sequence the ticks rise strictly, and a boot sequence that another one has
-- followed does not come back.
pub admitted-in_order :
    (g : CadenceGuard) (ss : List CadenceStamp) → in_order (admitted g ss) ≡ true
unfolding admitted in_order
admitted-in_order g [] = refl
admitted-in_order g (s ∷ ss) =
    let g' = (observe g s).1 in
    let rest = admitted-in_order g' ss in
    let later = admitted-after g' s ss in
    let leaves = admitted-departs g' s ss in let last = observe-last g s in ground arith

-- An event that was admitted is admitted again with the same stamp, and the guard stays as it is.
-- Another event with that stamp is refused.
pub observe_event_lem :
    (g : CadenceGuard) (s : CadenceStamp) (id other : ℕ)
    → is_ok (observe_event g s id).0 ≡ true
    → other ≢ id
    → (observe_event (observe_event g s id).1 s id ≡ (ok tt, (observe_event g s id).1))
      × (is_ok (observe_event (observe_event g s id).1 s other).0 ≡ false)
unfolding observe_event observe advance admit noting
observe_event_lem g s id other h ne = let self = str_eq_refl s.boot_sequence in ground arith
