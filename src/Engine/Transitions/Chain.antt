-- ===== src/Engine/Transitions/Chain.antt =====
-- Each transition leaves the application that the one before it has entered.
use open_chronicle_next.Base.{
  ◌≡◌, refl, sym, subst, inl, inr, String, Bool, true, false, ◌&&◌, not, none, some, List, [], ◌∷◌,
  arith, retain, str_eq, eq_iff, Option-cases, Bool-cases,
}
use open_chronicle_next.Base.Sort.{sort_by}
use open_chronicle_next.Domain.Event.{EventEnvelope}
use open_chronicle_next.Domain.Chunk.{Transition}
use open_chronicle_next.Engine.Coverage.Seconds.{event_order}
use open_chronicle_next.Engine.Transitions.{
  event_context, is_observed, transitions_from, application_transitions,
}

abbrev pub leaves : String → Transition → Bool
leaves key t = elim t.from_key [ none ↦ false | some from ↦ str_eq from key ]

-- The transitions lead on from an application, and none stays where it is.
unfoldable pub chained : String → List Transition → Bool
chained key [] = true
chained key (t ∷ ts) = leaves key t && not (str_eq key t.to_key) && chained t.to_key ts

-- The first transition may leave any application.
unfoldable pub is_chain : List Transition → Bool
unfolding chained
is_chain [] = true
is_chain (t ∷ ts) = elim t.from_key [ none ↦ false | some key ↦ chained key (t ∷ ts) ]

transitions_from-chained :
    (key : String) (es : List EventEnvelope) → chained key (transitions_from (some key) es) ≡ true
unfolding transitions_from chained
transitions_from-chained key [] = refl
transitions_from-chained key (e ∷ es) = elim (Option-cases (event_context e)) [
  | inl missing ↦ let rest = transitions_from-chained key es in ground arith
  | inr (c, found) ↦
      let rest = transitions_from-chained c.application_bundle_id es in
      let same = (eq_iff key c.application_bundle_id).0 in
      let self = (eq_iff key key).1 refl in
      elim (Bool-cases (str_eq key c.application_bundle_id)) [
        | inl stays ↦
            let again =
              subst (λ k. chained k (transitions_from (some k) es) ≡ true) (sym (same stays))
                rest in
            ground (arith, found, stays, again, same stays)
        | inr goes ↦ ground (arith, found, goes, self, rest)
      ]
]

chained-is_chain :
    (key : String) (ts : List Transition) → chained key ts ≡ true → is_chain ts ≡ true
unfolding is_chain chained
chained-is_chain key [] h = refl
chained-is_chain key (t ∷ ts) h = elim (Option-cases t.from_key) [
  | inl missing ↦ absurd (ground arith)
  | inr (from, found) ↦
      let self = (eq_iff from from).1 refl in let same = (eq_iff from key).0 in ground arith
]

transitions_from-is_chain : (es : List EventEnvelope) → is_chain (transitions_from none es) ≡ true
unfolding transitions_from is_chain
transitions_from-is_chain [] = refl
transitions_from-is_chain (e ∷ es) = elim (Option-cases (event_context e)) [
  | inl missing ↦ let rest = transitions_from-is_chain es in ground arith
  | inr (c, found) ↦
      let rest =
        chained-is_chain c.application_bundle_id _
          (transitions_from-chained c.application_bundle_id es) in
      ground arith
]

-- Each transition of `application_transitions` leaves the application that the one before it has
-- entered, and enters another one.
pub application_transitions-is_chain :
    (es : List EventEnvelope) → is_chain (application_transitions es) ≡ true
unfolding application_transitions
application_transitions-is_chain es =
    transitions_from-is_chain (sort_by event_order (retain is_observed es))
