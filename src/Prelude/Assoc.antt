-- ===== src/Prelude/Assoc.antt =====
-- A dict with text keys as the list of its items, in order.
use Prim.Native.String.{String}
use mathlib.Core.Path.{◌≡◌, refl}
use mathlib.Core.Bool.{Bool, false, ◌||◌}
use mathlib.Core.Option.{Option, none, some}
use mathlib.Core.List.{List, [], ◌∷◌}
use native.Mathlib.Omega.{arith}
use text.Mathlib.Text.{◌==◌ as str_eq}
use text.Mathlib.TextEquality.{eq_iff}
use prism_harness_py.Prelude.Tests.{if◌then◌else◌}

module _ {ℓ} {A : Type ℓ} where
  -- `dict.get(key)`
  abbrev pub lookup : String → List (String × A) → Option A
  lookup key [] = none
  lookup key ((k, a) ∷ items) = let rest = lookup key items in if str_eq k key then some a else rest

  -- `dict[key] = value`: a new key goes last, and a key that is there keeps its place.
  abbrev pub insert : String → A → List (String × A) → List (String × A)
  insert key a [] = (key, a) ∷ []
  insert key a ((k, b) ∷ items) =
      let rest = insert key a items in if str_eq k key then (k, a) ∷ items else (k, b) ∷ rest

  -- `dict.pop(key, None)`
  abbrev pub remove : String → List (String × A) → List (String × A)
  remove key [] = []
  remove key ((k, a) ∷ items) =
      let rest = remove key items in if str_eq k key then rest else (k, a) ∷ rest

  abbrev pub keys : List (String × A) → List String
  keys [] = []
  keys ((k, a) ∷ items) = k ∷ keys items

  abbrev pub values : List (String × A) → List A
  values [] = []
  values ((k, a) ∷ items) = a ∷ values items

  pub lookup-insert :
      (k j : String) (a : A) (items : List (String × A))
      → lookup j (insert k a items) ≡ (if str_eq k j then some a else lookup j items)
  lookup-insert k j a [] = refl
  lookup-insert k j a ((i, b) ∷ items) =
      ground (arith, eq_iff k j, eq_iff i k, eq_iff i j, lookup-insert k j a items)

  pub lookup-remove :
      (k j : String) (items : List (String × A))
      → lookup j (remove k items) ≡ (if str_eq k j then none else lookup j items)
  lookup-remove k j [] = ground arith
  lookup-remove k j ((i, b) ∷ items) =
      ground (arith, eq_iff k j, eq_iff i k, eq_iff i j, lookup-remove k j items)

-- `name in names`
abbrev pub is_in : String → List String → Bool
is_in name [] = false
is_in name (s ∷ ss) = str_eq s name || is_in name ss
