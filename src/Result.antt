-- ===== src/Result.antt =====
-- What code that raises and changes no state returns, and how such code is chained.
use prism_harness_py.Prelude.{Bool, if◌then◌else◌, ◌≡◌, refl, ◌⊎◌, inl, inr}
use prism_harness_py.Errors.{Error}

-- `raise` on the left, a returned value on the right.
pub data Result {ℓ} (A : Type ℓ) : Type ℓ where
  err : Error → Result A
  ok : A → Result A

module _ {ℓ} {B : Type ℓ} where
  infixl 5 ◌>>=◌ ◌>>◌
  abbrev pub ◌>>=◌ {κ} : {A : Type κ} → Result A → (A → Result B) → Result B
  err e >>= after = err e
  ok value >>= after = after value

  abbrev pub ◌>>◌ : Result (Unit {0}) → Result B → Result B
  before >> after = before >>= (λ _. after)

abbrev pub raise_if : Bool → Error → Result (Unit {0})
raise_if c e = if c then err e else ok tt

pub Result-cases {ℓ} :
    {A : Type ℓ} (r : Result A) → ((a : A) × (r ≡ ok a)) ⊎ ((e : Error) × (r ≡ err e))
Result-cases (ok a) = inl (a, refl)
Result-cases (err e) = inr (e, refl)

-- A call returns one value.
pub ok_unique {ℓ} : {A : Type ℓ} {r : Result A} {a b : A} → r ≡ ok a → r ≡ ok b → a ≡ b
ok_unique p q = cc

-- What was returned in the end was made from what was returned at first.
pub first_ok :
    {A B : Type 0} (r : Result A) (f : A → Result B) (b : B)
    → (r >>= f) ≡ ok b
    → (a : A) × (r ≡ ok a) × (f a ≡ ok b)
first_ok (ok a) f b h = (a, refl, h)
first_ok (err e) f b h = cc
