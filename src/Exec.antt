-- ===== src/Exec.antt =====
-- Methods that change an object and may raise. What was written before a raise stays written, so
-- the state comes back beside the error too.
use prism_harness_py.Prelude.{Bool, ◌≡◌, ◌⊎◌, inl, inr, refl, sym, ap, ◌∙◌, if◌then◌else◌}
use prism_harness_py.Errors.{Error}
use prism_harness_py.Result.{Result, ok, err, Result-cases}

abbrev pub Exec : Type 0 → Type 0 → Type 0
Exec S A = S → Result A × S

module _ {S A : Type 0} where
  abbrev pub pure : A → Exec S A
  pure a s = (ok a, s)

  abbrev pub raise : Error → Exec S A
  raise e s = (err e, s)

  abbrev pub lift : Result A → Exec S A
  lift r s = (r, s)

  abbrev pub gets : (S → A) → Exec S A
  gets f s = (ok (f s), s)

abbrev pub modify : {S : Type 0} → (S → S) → Exec S (Unit {0})
modify f s = (ok tt, f s)

abbrev pub raise_if : {S : Type 0} → Bool → Error → Exec S (Unit {0})
raise_if c e s = (if c then err e else ok tt, s)

module _ {S A B : Type 0} where
  infixl 5 ◌>>=◌ ◌>>◌
  abbrev pub ◌>>=◌ : Exec S A → (A → Exec S B) → Exec S B
  ◌>>=◌ m f s = let (r, s') = m s in elim r [ ok a ↦ f a s' | err e ↦ (err e, s') ]

  abbrev pub ◌>>◌ : Exec S A → Exec S B → Exec S B
  m >> k = m >>= λ _. k

-- What goes on after a call that returned.
pub after_ok :
    {S A B : Type 0} (m : Exec S A) (f : A → Exec S B) (s t : S) (a : A)
    → m s ≡ (ok a, t)
    → (m >>= f) s ≡ f a t
after_ok m f s t a is = ap (λ p. elim p.0 [ ok b ↦ f b p.1 | err e ↦ (err e, p.1) ]) is

pub after_err :
    {S A B : Type 0} (m : Exec S A) (f : A → Exec S B) (s t : S) (e : Error)
    → m s ≡ (err e, t)
    → (m >>= f) s ≡ (err e, t)
after_err m f s t e is = ap (λ p. elim p.0 [ ok b ↦ f b p.1 | err e ↦ (err e, p.1) ]) is

pub Exec-cases :
    {S A : Type 0} (m : Exec S A) (s : S)
    → ((a : A) × (t : S) × (m s ≡ (ok a, t))) ⊎ ((e : Error) × (t : S) × (m s ≡ (err e, t)))
Exec-cases m s = elim (Result-cases (m s).0) [
  | inl (a, is) ↦ inl (a, (m s).1, rw (← is) refl)
  | inr (e, is) ↦ inr (e, (m s).1, rw (← is) refl)
]

-- What returned in the end returned at first.
pub first_returned :
    {S A B : Type 0} (m : Exec S A) (f : A → Exec S B) (s u : S) (b : B)
    → (m >>= f) s ≡ (ok b, u)
    → (a : A) × (t : S) × (m s ≡ (ok a, t)) × (f a t ≡ (ok b, u))
first_returned m f s u b h = elim (Exec-cases m s) [
  | inl (a, t, is) ↦ (a, t, is, sym (after_ok m f s t a is) ∙ h)
  | inr (e, t, is) ↦ cc (h, after_err m f s t e is)
]
