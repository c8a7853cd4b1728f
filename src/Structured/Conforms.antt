-- ===== src/Structured/Conforms.antt =====
-- What a schema means: the documents that conform to it, with no check and no path.
use prism_harness_py.Prelude.{true, String, Option, none, some, List, [], ◌∷◌, any, ◌≡◌, ◌⊎◌}
use prism_harness_py.Value.{Value, arr, obj, Fields, end, field, get, contains, to_list}
use prism_harness_py.Structured.Check.{
  list_at, same_json, matches, declared_types, required, properties, is_closed, is_elem,
}

-- A value of the list.
abbrev pub IsIn : Value → List Value → Type 0
IsIn x [] = ⊥
IsIn x (y ∷ ys) = (y ≡ x) ⊎ IsIn x ys

-- A key of the dict with its value.
abbrev pub IsUnder : (key : String) → Value → Fields → Type 0
IsUnder key x end = ⊥
IsUnder key x (field k v d) = ((k ≡ key) × (v ≡ x)) ⊎ IsUnder key x d

-- The items of an array.
abbrev pub list_of : Value → Option (List Value)
list_of (arr vs) = some (to_list vs)
list_of _ = none

-- A list under `anyOf` stands for the whole schema, and failing that a list under `enum`. A schema
-- that declares no type is met by everything. A declared type has to match, and an object or an array
-- that is asked for has to conform in its parts.
pub data Conforms : (schema : Fields) → Value → Type 0 where
  alternative :
      {s : Fields} {v : Value}
      → (branches : List Value) → list_at "anyOf" s ≡ some branches
      → (b : Fields) → IsIn (obj b) branches
      → Conforms b v
      → Conforms s v
  enumerated :
      {s : Fields} {v : Value}
      → (members : List Value) → list_at "anyOf" s ≡ none
      → list_at "enum" s ≡ some members
      → any (λ m. same_json m v) members ≡ true
      → Conforms s v
  silent :
      {s : Fields} {v : Value}
      → list_at "anyOf" s ≡ none
      → list_at "enum" s ≡ none
      → declared_types s ≡ []
      → Conforms s v
  typed :
      {s : Fields} {v : Value}
      → list_at "anyOf" s ≡ none
      → list_at "enum" s ≡ none
      → any (λ d. matches d v) (declared_types s) ≡ true
      → ((d : Fields)
          → v ≡ obj d
          → is_elem "object" (declared_types s) ≡ true
          → (name : String) → is_elem name (required s) ≡ true
          → contains name d ≡ true)
      → ((d : Fields)
          → v ≡ obj d
          → is_elem "object" (declared_types s) ≡ true
          → (name : String) (prop : Fields) (x : Value) → IsUnder name (obj prop) (properties s)
          → get name d ≡ some x
          → Conforms prop x)
      → ((d : Fields)
          → v ≡ obj d
          → is_elem "object" (declared_types s) ≡ true
          → is_closed s ≡ true
          → (name : String) → contains name d ≡ true
          → contains name (properties s) ≡ true)
      → ((vs : List Value) (item : Fields)
          → list_of v ≡ some vs
          → is_elem "array" (declared_types s) ≡ true
          → get "items" s ≡ some (obj item)
          → (x : Value) → IsIn x vs
          → Conforms item x)
      → Conforms s v
