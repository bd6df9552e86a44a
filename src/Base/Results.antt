-- ===== src/Base/Results.antt =====
-- What a Go call comes to: a value, a panic, or, for a loop run on fuel, no end within it.
use mathlib.Core.Path.{◌≡◌, refl}
use mathlib.Core.Bool.{Bool, true, false}
use mathlib.Core.Option.{Option, none, some}

pub data Outcome {ℓ} (A : Type ℓ) : Type ℓ where
  ok : A → Outcome A
  panic : Outcome A
  stuck : Outcome A

infixl 5 ◌>>=◌ ◌>>◌
abbrev pub ◌>>=◌ {ℓ κ} : {A : Type ℓ} {B : Type κ} → Outcome A → (A → Outcome B) → Outcome B
panic >>= next = panic
stuck >>= next = stuck
ok value >>= next = next value

abbrev pub ◌>>◌ {ℓ} : {B : Type ℓ} → Outcome (Unit {0}) → Outcome B → Outcome B
ok done >> second = second
panic >> second = panic
stuck >> second = stuck

-- A test that the code panics on when it fails.
abbrev pub require : Bool → Outcome (Unit {0})
require true = ok tt
require false = panic

-- An access that panics when it is out of range or goes through nil.
abbrev pub or_panic {ℓ} : {A : Type ℓ} → Option A → Outcome A
or_panic none = panic
or_panic (some a) = ok a

-- What a call that returned went through.
pub >>=-eq-ok {ℓ κ} :
    {A : Type ℓ} {B : Type κ} (first : Outcome A) (next : A → Outcome B) {b : B}
    → (first >>= next) ≡ ok b
    → (value : A) × (first ≡ ok value) × (next value ≡ ok b)
>>=-eq-ok panic next returned = cc
>>=-eq-ok stuck next returned = cc
>>=-eq-ok (ok value) next returned = (value, refl, returned)
