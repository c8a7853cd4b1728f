-- ===== src/Tasks/Search.antt =====
-- The first entry that passes a test, and its update in place (Tasks/Listing.antt).
use prism_harness_py.Prelude.{
  Bool, true, false, none, some, List, [], ◌∷◌, ◌++◌, map, ◌≡◌, ◌↔◌, ◌⊎◌, refl, ap, arith, All,
  Bool-cases, inl, inr,
}
use prism_harness_py.Tasks.Listing.{find_first, update_first, count}

module _ {ℓ} {A : Type ℓ} (p : A → Bool) where
  -- Where the search stopped: the entries before fail the test.
  pub record IsFirst (x : A) (xs : List A) : Type ℓ where
    pub before : List A
    pub after : List A
    pub split : xs ≡ before ++ (x ∷ after)
    pub passed_over : All (λ y. p y ≡ false) before
    pub passes : p x ≡ true
    pub updated : (f : A → A) → update_first p f xs ≡ before ++ (f x ∷ after)

  pub find_first-IsFirst : {x : A} (xs : List A) → find_first p xs ≡ some x → IsFirst x xs
  unfolding find_first update_first
  find_first-IsFirst [] h = cc
  find_first-IsFirst {x} (y ∷ xs) h = elim (Bool-cases (p y)) [
    | inl hit ↦
        let e : y ≡ x = ground arith in
        record {
          before = [];
          after = xs;
          split = ap (λ z. z ∷ xs) e;
          passed_over = tt;
          passes = rw (← e) hit;
          updated = λ f. rw (hit, e);
        }
    | inr miss ↦
        let rest = find_first-IsFirst {x = x} xs (rw miss at h) in
        record {
          before = y ∷ rest.before;
          after = rest.after;
          split = ap (λ z. y ∷ z) rest.split;
          passed_over = (miss, rest.passed_over);
          passes = rest.passes;
          updated = λ f. rw miss (ap (λ z. y ∷ z) (rest.updated f));
        }
  ]

  pub count-eq-zero_iff : (xs : List A) → (count p xs ≡ 0) ↔ (find_first p xs ≡ none)
  unfolding count find_first
  count-eq-zero_iff [] = (λ h. refl, λ h. refl)
  count-eq-zero_iff (x ∷ xs) =
      let (to, from) = count-eq-zero_iff xs in (λ h. ground (arith, to), λ h. ground (arith, from))

module _ {ℓ} {A : Type ℓ} (p : A → Bool) where
  pub find_first-passes : {x : A} (xs : List A) → find_first p xs ≡ some x → p x ≡ true
  find_first-passes xs h = (find_first-IsFirst p xs h).passes

  -- A map that keeps the test finds the image of what was found.
  pub find_first-map :
      (f : A → A) (keeps : (x : A) → p (f x) ≡ p x) (x : A) (xs : List A)
      → find_first p xs ≡ some x
      → find_first p (map f xs) ≡ some (f x)
  unfolding find_first
  find_first-map f keeps x [] h = cc
  find_first-map f keeps x (y ∷ ys) h = ground (arith, keeps y, find_first-map f keeps x ys)

  pub find_first-append :
      (x : A) (xs ys : List A) → find_first p xs ≡ some x → find_first p (xs ++ ys) ≡ some x
  unfolding find_first
  find_first-append x [] ys h = cc
  find_first-append x (y ∷ xs) ys h = ground (arith, find_first-append x xs ys)

  -- An update by another search changes what was found only if that search found it too.
  pub find_first-update_first :
      (q : A → Bool) (f : A → A) (keeps : (x : A) → p (f x) ≡ p x) (x : A) (xs : List A)
      → find_first p xs ≡ some x
      → (find_first p (update_first q f xs) ≡ some x)
        ⊎ ((find_first p (update_first q f xs) ≡ some (f x))
            × (q x ≡ true)
            × (find_first q xs ≡ some x))
  unfolding find_first update_first
  find_first-update_first q f keeps x [] h = cc
  find_first-update_first q f keeps x (y ∷ ys) h =
      ground (arith, keeps y, find_first-update_first q f keeps x ys)
