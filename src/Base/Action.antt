-- ===== src/Base/Action.antt =====
-- Calls that change a state and may fail: the state that a call leaves stands beside its result, an
-- error's too.
use open_chronicle_next.Base.Outcome.{Result, ok, err}

abbrev pub Action : Type 0 → Type 0 → Type 0 → Type 0
Action E S A = S → Result E A × S

module _ {E S A : Type 0} where
  abbrev pub pure : A → Action E S A
  pure a s = (ok a, s)

  abbrev pub raise : E → Action E S A
  raise e s = (err e, s)

  -- `?` on a result that changes no state.
  abbrev pub lift : Result E A → Action E S A
  lift r s = (r, s)

infixl 5 ◌>>=◌ ◌>>◌
abbrev pub ◌>>=◌ : {E S A B : Type 0} → Action E S A → (A → Action E S B) → Action E S B
◌>>=◌ call next s = let (r, s') = call s in elim r [ ok a ↦ next a s' | err e ↦ (err e, s') ]

abbrev pub ◌>>◌ : {E S B : Type 0} → Action E S (Unit {0}) → Action E S B → Action E S B
call >> next = call >>= λ _. next
