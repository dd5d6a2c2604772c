-- ===== src/Base/Outcome.antt =====
-- `Result<T, E>`, with the `?` operator as the bind of a `do` block.
use mathlib.Core.Path.{◌≡◌, refl}
use mathlib.Core.Logic.{◌⊎◌, inl, inr}
use mathlib.Core.Bool.{Bool, true, false}
use mathlib.Core.Option.{Option, none, some}

pub data Result {ℓ κ} (E : Type ℓ) (A : Type κ) : Type (ℓ ⊔ κ) where
  ok : A → Result E A
  err : E → Result E A

infixl 5 ◌>>=◌ ◌>>◌
abbrev pub ◌>>=◌ {ℓ κ μ} :
    {E : Type ℓ} {A : Type κ} {B : Type μ} → Result E A → (A → Result E B) → Result E B
ok value >>= next = next value
err failure >>= next = err failure

abbrev pub ◌>>◌ {ℓ μ} : {E : Type ℓ} {B : Type μ} → Result E (Unit {0}) → Result E B → Result E B
check >> next = check >>= λ _. next

-- `if test { return Err(e) }`.
abbrev pub refuse {ℓ} : {E : Type ℓ} → Bool → E → Result E (Unit {0})
refuse true e = err e
refuse false e = ok tt

-- `test.then_some(()).ok_or(e)`.
abbrev pub require {ℓ} : {E : Type ℓ} → Bool → E → Result E (Unit {0})
require true e = ok tt
require false e = err e

-- `ok_or(e)`.
abbrev pub ok_or {ℓ κ} : {E : Type ℓ} {A : Type κ} → Option A → E → Result E A
ok_or none e = err e
ok_or (some a) e = ok a

-- `map_err(f)`.
abbrev pub map_err {ℓ κ μ} :
    {E : Type ℓ} {F : Type μ} {A : Type κ} → (E → F) → Result E A → Result F A
map_err f (ok a) = ok a
map_err f (err e) = err (f e)

-- `is_ok()`.
abbrev pub is_ok {ℓ κ} : {E : Type ℓ} {A : Type κ} → Result E A → Bool
is_ok (ok a) = true
is_ok (err e) = false

-- A chain that succeeds has succeeded at its first step and in the rest.
pub >>=-eq-ok {ℓ κ μ} :
    {E : Type ℓ} {A : Type κ} {B : Type μ} (first : Result E A) (rest : A → Result E B) {last : B}
    → (first >>= rest) ≡ ok last
    → (value : A) × (first ≡ ok value) × (rest value ≡ ok last)
>>=-eq-ok (ok value) rest equal = (value, refl, equal)
>>=-eq-ok (err failure) rest equal = cc

-- Likewise where the first step is only a check.
pub >>-eq-ok {ℓ μ} :
    {E : Type ℓ} {B : Type μ} (m : Result E (Unit {0})) (k : Result E B) {b : B}
    → (m >> k) ≡ ok b
    → (m ≡ ok tt) × (k ≡ ok b)
>>-eq-ok (ok a) k h = (refl, h)
>>-eq-ok (err e) k h = cc

pub Result-cases {ℓ κ} :
    {E : Type ℓ} {A : Type κ} (r : Result E A) → ((a : A) × (r ≡ ok a)) ⊎ ((e : E) × (r ≡ err e))
Result-cases (ok a) = inl (a, refl)
Result-cases (err e) = inr (e, refl)

-- A chain of checks in front of a result and its state.
pub >>-eq-pair {ℓ} :
    {E A B : Type ℓ} (m : Result E (Unit {0})) (a : A) (b : B) {last : A} {state : B}
    → ◌>>◌ {B = A × B} m (ok (a, b)) ≡ ok (last, state)
    → (a ≡ last) × (b ≡ state)
>>-eq-pair (ok done) a b h = (cc, cc)
>>-eq-pair (err e) a b h = cc

-- A check that passes says what it tests.
pub refuse-ok {ℓ} : {E : Type ℓ} (b : Bool) (e : E) → refuse b e ≡ ok tt → b ≡ false
refuse-ok true e h = cc
refuse-ok false e h = refl

pub require-ok {ℓ} : {E : Type ℓ} (b : Bool) (e : E) → require b e ≡ ok tt → b ≡ true
require-ok true e h = refl
require-ok false e h = cc

pub ok_injective {ℓ} : {E A : Type ℓ} (a b : A) → ◌≡◌ {A = Result E A} (ok a) (ok b) → a ≡ b
ok_injective a b h = cc

pub >>-refuse {ℓ} :
    {E : Type ℓ} (m : Result E (Unit {0})) (b : Bool) (e : E)
    → m ≡ ok tt
    → b ≡ false
    → (m >> refuse b e) ≡ ok tt
>>-refuse (ok tt) true e h k = cc
>>-refuse (ok tt) false e h k = refl
>>-refuse (err failure) b e h k = cc
