-- ===== src/Base/Results.antt =====
-- Code that raises: a value or the exception, and the chain of such steps.
use mathlib.Core.Logic.{◌⊎◌, inl, inr}
use mathlib.Core.Path.{◌≡◌, refl}

pub data Result {ℓ κ} (Raised : Type ℓ) (Value : Type κ) : Type (ℓ ⊔ κ) where
  ok : Value → Result Raised Value
  raise : Raised → Result Raised Value

module _ {ℓ κ} {Raised : Type ℓ} {Value : Type κ} where
  pub Result-cases :
      (r : Result Raised Value) → ((e : Raised) × (r ≡ raise e)) ⊎ ((v : Value) × (r ≡ ok v))
  Result-cases (raise e) = inl (e, refl)
  Result-cases (ok v) = inr (v, refl)

  pub ok-injective : {v w : Value} → ◌≡◌ {A = Result Raised Value} (ok v) (ok w) → v ≡ w
  ok-injective same = cc

infixl 5 ◌>>=◌ ◌>>◌
abbrev pub ◌>>=◌ {ℓ κ μ} :
    {Raised : Type ℓ} {Value : Type κ} {Next : Type μ}
    → Result Raised Value
    → (Value → Result Raised Next)
    → Result Raised Next
raise e >>= next = raise e
ok v >>= next = next v

-- A chain that returned has passed each of its steps.
pub >>=-eq-ok {ℓ κ μ} :
    {Raised : Type ℓ} {Value : Type κ} {Next : Type μ} (first : Result Raised Value)
    (next : Value → Result Raised Next) {w : Next}
    → (first >>= next) ≡ ok w
    → (v : Value) × (first ≡ ok v) × (next v ≡ ok w)
>>=-eq-ok (raise e) next returned = cc
>>=-eq-ok (ok v) next returned = (v, refl, returned)

abbrev pub ◌>>◌ {ℓ κ} :
    {Raised : Type ℓ} {Next : Type κ}
    → Result Raised (Unit {0})
    → Result Raised Next
    → Result Raised Next
check >> next = check >>= λ _. next
