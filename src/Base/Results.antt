-- ===== src/Base/Results.antt =====
-- Go's pair of a value and an error, of which one is set, and chains of such calls.
use mathlib.Core.Path.{◌≡◌, refl}
use mathlib.Core.Bool.{Bool, true, false}

pub data Result {ℓ₁ ℓ₂} (E : Type ℓ₁) (A : Type ℓ₂) : Type (ℓ₁ ⊔ ℓ₂) where
  err : E → Result E A
  ok : A → Result E A

-- `if test { return failure }`
abbrev pub refuse_if {ℓ₁} : {E : Type ℓ₁} → Bool → E → Result E (Unit {0})
refuse_if false failure = ok tt
refuse_if true failure = err failure

infixl 5 ◌>>=◌ ◌>>◌
abbrev pub ◌>>=◌ {ℓ₁ ℓ₂ ℓ₃} :
    {E : Type ℓ₁} {A : Type ℓ₂} {B : Type ℓ₃} → Result E A → (A → Result E B) → Result E B
err failure >>= next = err failure
ok value >>= next = next value

abbrev pub ◌>>◌ {ℓ₁ ℓ₂} :
    {E : Type ℓ₁} {B : Type ℓ₂} → Result E (Unit {0}) → Result E B → Result E B
call >> next = call >>= λ done. next

-- a chain that ends well went through its first test
pub refuse_if-eq-ok {ℓ₁ ℓ₂} :
    {E : Type ℓ₁} {B : Type ℓ₂} (test : Bool) (failure : E) (next : Result E B) {b : B}
    → (refuse_if test failure >> next) ≡ ok b
    → (test ≡ false) × (next ≡ ok b)
refuse_if-eq-ok false failure next h = (refl, h)
refuse_if-eq-ok true failure next h = absurd (cc)

-- and its first call
pub >>=-eq-ok {ℓ₁ ℓ₂ ℓ₃} :
    {E : Type ℓ₁} {A : Type ℓ₂} {B : Type ℓ₃} (call : Result E A) (next : A → Result E B) {b : B}
    → (call >>= next) ≡ ok b
    → (a : A) × (call ≡ ok a) × (next a ≡ ok b)
>>=-eq-ok (err failure) next h = absurd (cc)
>>=-eq-ok (ok value) next h = (value, refl, h)
