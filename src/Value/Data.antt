-- ===== src/Value/Data.antt =====
-- The data of a document, and the tests of `isinstance` on it.
use prism_harness_py.Prelude.{ℕ, String, Bool, true, false, List, [], ◌∷◌, ◌≡◌, refl, ap, map}
use prism_harness_py.Prelude.Int.{ℤ}

-- A float is a count of ticks of 2^-22, which is exact for a clock reading: a double between 2^30
-- and 2^31 is a multiple of 2^-22. JSON has no NaN and no infinity, and neither has a document here.
abbrev pub ticks_per_second : ℕ
ticks_per_second = 4194304

mutual
  pub data Items : Type 0 where
    nil : Items
    cons : Value → Items → Items

  pub data Value : Type 0 where
    null : Value
    bool : Bool → Value
    int : ℤ → Value
    float : (ticks : ℤ) → Value
    str : String → Value
    arr : Items → Value
    obj : Fields → Value

  pub data Fields : Type 0 where
    end : Fields
    field : String → Value → Fields → Fields

abbrev pub to_list : Items → List Value
to_list nil = []
to_list (cons v vs) = v ∷ to_list vs

abbrev pub of_list : List Value → Items
of_list [] = nil
of_list (v ∷ vs) = cons v (of_list vs)

-- `[entry for entry in entries if isinstance(entry, dict)]`
abbrev pub dicts : List Value → List Fields
dicts [] = []
dicts (obj f ∷ vs) = f ∷ dicts vs
dicts (_ ∷ vs) = dicts vs

abbrev pub strings : List Value → List String
strings [] = []
strings (str s ∷ vs) = s ∷ strings vs
strings (_ ∷ vs) = strings vs

abbrev pub is_null : Value → Bool
is_null null = true
is_null _ = false

abbrev pub is_bool : Value → Bool
is_bool (bool _) = true
is_bool _ = false

abbrev pub is_str : Value → Bool
is_str (str _) = true
is_str _ = false

abbrev pub is_list : Value → Bool
is_list (arr _) = true
is_list _ = false

abbrev pub is_dict : Value → Bool
is_dict (obj _) = true
is_dict _ = false

-- Writing dicts out and reading the dicts back gives the same dicts.
pub dicts-of_list : (records : List Fields) → dicts (to_list (of_list (map obj records))) ≡ records
dicts-of_list [] = refl
dicts-of_list (r ∷ rs) = ap (λ t. r ∷ t) (dicts-of_list rs)
