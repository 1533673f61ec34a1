-- ===== src/Base/Outcome.antt =====
-- Results with an error value, and their `do` blocks.
use mathlib.Core.Path.{◌≡◌, refl}
use mathlib.Core.Bool.{Bool, true, false}
use mathlib.Core.Option.{Option, none, some}

-- `E` is the type of the component's errors.
pub data Result {ℓ κ} (E : Type κ) (A : Type ℓ) : Type (ℓ ⊔ κ) where
  ok : A → Result E A
  err : E → Result E A

abbrev pub or_fail {ℓ ι} : {E : Type ι} {A : Type ℓ} → Option A → E → Result E A
or_fail none failure = err failure
or_fail (some found) failure = ok found

-- An early return with an error, unless the test holds.
abbrev pub guard {ι} : {E : Type ι} → Bool → E → Result E (Unit {0})
guard false failure = err failure
guard true failure = ok tt

abbrev pub ◌>>=◌ {ℓ κ ι} :
    {E : Type ι} {A : Type ℓ} {B : Type κ} → Result E A → (A → Result E B) → Result E B
err failure >>= next = err failure
ok value >>= next = next value

abbrev pub ◌>>◌ {ℓ ι} : {E : Type ι} {B : Type ℓ} → Result E (Unit {0}) → Result E B → Result E B
first >> second = first >>= λ _. second

infixl 5 ◌>>=◌ ◌>>◌
pub >>-eq-ok {ℓ ι} :
    {E : Type ι} {B : Type ℓ} (first : Result E (Unit {0})) (second : Result E B) {b : B}
    → (first >> second) ≡ ok b
    → (first ≡ ok tt) × (second ≡ ok b)
>>-eq-ok (err failure) second eq = cc
>>-eq-ok (ok tt) second eq = (refl, eq)

pub >>=-eq-ok {ℓ κ ι} :
    {E : Type ι} {A : Type ℓ} {B : Type κ} (first : Result E A) (next : A → Result E B) {b : B}
    → (first >>= next) ≡ ok b
    → (value : A) × (first ≡ ok value) × (next value ≡ ok b)
>>=-eq-ok (err failure) next eq = cc
>>=-eq-ok (ok value) next eq = (value, refl, eq)

pub guard-ok {ι} : {E : Type ι} (b : Bool) (failure : E) → guard b failure ≡ ok tt → b ≡ true
guard-ok true failure h = refl
guard-ok false failure h = cc
