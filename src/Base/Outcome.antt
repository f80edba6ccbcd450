-- ===== src/Base/Outcome.antt =====
-- The result of a fallible call: a value, or one of the errors of its component.

use mathlib.Core.Path.{◌≡◌, refl}
use mathlib.Core.Bool.{Bool, true, false}
use mathlib.Core.Option.{Option, none, some}

pub data Result {ℓ κ} (E : Type ℓ) (A : Type κ) : Type (ℓ ⊔ κ) where
  err : E → Result E A
  ok : A → Result E A

infixl 5 ◌>>=◌
-- The next step of a `do` block, which an error skips.
abbrev pub ◌>>=◌ {ℓ κ μ} :
    {E : Type ℓ} {A : Type κ} {B : Type μ} → Result E A → (A → Result E B) → Result E B
err failure >>= next = err failure
ok value >>= next = next value

-- `if bad { return e }`
abbrev pub refuse_if {ℓ} : {E : Type ℓ} → Bool → E → Result E (Unit {0})
refuse_if true e = err e
refuse_if false e = ok tt

abbrev pub or_fail {ℓ κ} : {E : Type ℓ} {A : Type κ} → Option A → E → Result E A
or_fail none e = err e
or_fail (some a) e = ok a

infixl 5 ◌>>◌
-- A step with no value.
abbrev pub ◌>>◌ {ℓ κ} : {E : Type ℓ} {B : Type κ} → Result E (Unit {0}) → Result E B → Result E B
check >> next = check >>= λ _. next

-- The steps of a check that passed.
pub refused-then :
    {E A : Type 0} (b : Bool) (e : E) (k : Result E A) {r : A}
    → (refuse_if b e >> k) ≡ ok r
    → (b ≡ false) × (k ≡ ok r)
refused-then true e k h = cc
refused-then false e k h = (refl, h)

pub needed-then :
    {E A B : Type 0} (o : Option A) (e : E) (k : A → Result E B) {r : B}
    → (or_fail o e >>= k) ≡ ok r
    → (a : A) × (o ≡ some a) × (k a ≡ ok r)
needed-then none e k h = cc
needed-then (some a) e k h = (a, refl, h)

pub done-then :
    {E A : Type 0} (m : Result E (Unit {0})) (k : Result E A) {r : A}
    → (m >> k) ≡ ok r
    → (m ≡ ok tt) × (k ≡ ok r)
done-then (ok tt) k h = (refl, h)
done-then (err e) k h = cc

pub bound-then :
    {E A B : Type 0} (m : Result E A) (k : A → Result E B) {r : B}
    → (m >>= k) ≡ ok r
    → (a : A) × (m ≡ ok a) × (k a ≡ ok r)
bound-then (err e) k h = cc
bound-then (ok a) k h = (a, refl, h)
