-- ===== src/Base/Outcome.antt =====
-- How a Go function ends: with a value, with an error that it returns, or with a panic. A model
-- that runs on fuel may also run out of it.
use Prim.Native.String.{String}
use mathlib.Core.Path.{◌≡◌, refl}

-- why there is no value
pub data Failure : Type 0 where
  out_of_fuel : Failure
  panic error : String → Failure

pub data Result {ℓ} (Value : Type ℓ) : Type ℓ where
  fail : Failure → Result Value
  ok : Value → Result Value

infixl 5 ◌>>=◌
-- the rest of the function, unless it has ended
abbrev pub ◌>>=◌ {ℓ κ} :
    {Value : Type ℓ} {Next : Type κ} → Result Value → (Value → Result Next) → Result Next
fail why >>= next = fail why
ok value >>= next = next value

module _ {ℓ κ} {Value : Type ℓ} {Next : Type κ} where
  -- A chain that ends with a value has a first step that does.
  pub >>=-eq-ok :
      (first : Result Value) (next : Value → Result Next) {end : Next}
      → (first >>= next) ≡ ok end
      → (value : Value) × (first ≡ ok value) × (next value ≡ ok end)
  >>=-eq-ok (fail why) next run = cc
  >>=-eq-ok (ok value) next run = (value, refl, run)

pub >>=_assoc {ℓ κ μ} :
    {A : Type ℓ} {B : Type κ} {E : Type μ} (first : Result A) (f : A → Result B) (g : B → Result E)
    → (first >>= λ a. f a >>= g) ≡ ((first >>= f) >>= g)
>>=_assoc (fail why) f g = refl
>>=_assoc (ok a) f g = refl
