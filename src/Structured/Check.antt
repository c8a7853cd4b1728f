-- ===== src/Structured/Check.antt =====
-- The check. A schema is walked as the dict it is: `..._in` looks for one key and goes on below it.
use prism_harness_py.Prelude.{
  ℕ, zero, suc, String, Bool, true, false, ◌+◌, Option, none, some, List, [], ◌∷◌, ◌++◌, any,
  if◌then◌else◌, str_eq,
}
use prism_harness_py.Prelude.Int.{pos}
use Prim.Native.String.{◌++◌ as ◌++ˢ◌}
use prism_harness_py.Value.{
  Value, bool, int, float, str, arr, obj, Items, nil, cons, Fields, end, field, get, contains,
  is_bool, is_str, is_list, is_dict, is_null, to_list, same, strings,
}
use prism_harness_py.Python.{Python}

pub data Problem : Type 0 where
  no_alternative : (path : String) → Value → Problem
  not_one_of : (path : String) → Value → (members : List Value) → Problem
  wrong_type : (path : String) → Value → (types : List String) → Problem
  missing : (path : String) → Problem
  undeclared : (path : String) → Problem

-- `schema_name`
unfoldable pub schema_name : Fields → String
schema_name schema = elim (get "name" schema) [
  | some (str named) ↦ if str_eq named "" then "document" else named
  | _ ↦ "document"
]

-- `_same`
abbrev pub same_json : (member value : Value) → Bool
same_json (bool b) (bool c) = same (bool b) (bool c)
same_json (bool b) _ = false
same_json _ (bool c) = false
same_json m v = same m v

abbrev is_number_value : Value → Bool
is_number_value (int _) = true
is_number_value (float _) = true
is_number_value _ = false

abbrev is_int : Value → Bool
is_int (int _) = true
is_int _ = false

-- `_matches`: a type that is not known matches everything
unfoldable pub matches : (declared : String) → Value → Bool
matches declared v =
    if str_eq declared "boolean"
    then is_bool v
    else if str_eq declared "string"
    then is_str v
    else if str_eq declared "number"
    then is_number_value v
    else if str_eq declared "integer"
    then is_int v
    else if str_eq declared "null"
    then is_null v
    else if str_eq declared "array"
    then is_list v
    else if str_eq declared "object"
    then is_dict v
    else true

abbrev types_of : Option Value → List String
types_of (some (str s)) = s ∷ []
types_of (some (arr vs)) = strings (to_list vs)
types_of _ = []

-- `_declared_types`
abbrev pub declared_types : Fields → List String
declared_types schema = types_of (get "type" schema)

-- A key's value where it is a list.
abbrev pub list_at : String → Fields → Option (List Value)
list_at key schema = elim (get key schema) [ some (arr vs) ↦ some (to_list vs) | _ ↦ none ]

abbrev pub items_or_none : Option (List Value) → List Value
items_or_none none = []
items_or_none (some vs) = vs

abbrev pub dict_or_empty : Option Value → Fields
dict_or_empty (some (obj d)) = d
dict_or_empty _ = end

abbrev pub properties : Fields → Fields
properties schema = dict_or_empty (get "properties" schema)

abbrev pub required : Fields → List String
required schema = strings (items_or_none (list_at "required" schema))

abbrev pub is_false : Option Value → Bool
is_false (some (bool false)) = true
is_false _ = false

-- `additionalProperties` is False.
abbrev pub is_closed : Fields → Bool
is_closed schema = is_false (get "additionalProperties" schema)

abbrev pub below : (path name : String) → String
below path name = path ++ˢ ("." ++ˢ name)

abbrev pub is_elem : String → List String → Bool
is_elem s = any (str_eq s)

-- The loop over `required`.
unfoldable pub missing_names : (path : String) → List String → Fields → List Problem
missing_names path [] document = []
missing_names path (name ∷ names) document =
    let rest = missing_names path names document in
    if contains name document then rest else missing (below path name) ∷ rest

-- The loop over the document's keys, where the schema is closed.
unfoldable pub undeclared_names : (path : String) → (props document : Fields) → List Problem
undeclared_names path props end = []
undeclared_names path props (field name v document) =
    let rest = undeclared_names path props document in
    if contains name props then rest else undeclared (below path name) ∷ rest

abbrev pub is_nil : List Problem → Bool
is_nil [] = true
is_nil _ = false

module _ ⦃py : Python⦄ where
  abbrev pub item_path : (path : String) (index : ℕ) → String
  item_path path index = path ++ˢ ("[" ++ˢ (py.show (int (pos index)) ++ˢ "]"))

  -- The checks of a value's parts, over the check of a part.
  module _ (recur : (schema : Fields) → Value → (path : String) → List Problem) where
    -- Is there a branch with no problem?
    abbrev pub any_branch : List Value → Value → (path : String) → Bool
    any_branch [] v path = false
    any_branch (obj b ∷ bs) v path =
        let rest = any_branch bs v path in if is_nil (recur b v path) then true else rest
    any_branch (_ ∷ bs) v path = any_branch bs v path

    -- One property, where its schema is a dict and the document has it.
    abbrev pub check_property :
        String → (prop : Value) → Option Value → (path : String) → List Problem
    check_property name (obj prop) (some v) path = recur prop v (below path name)
    check_property name _ _ path = []

    abbrev pub each_property : (props document : Fields) → (path : String) → List Problem
    each_property end document path = []
    each_property (field name prop props) document path =
        check_property name prop (get name document) path ++ each_property props document path

    abbrev pub each_item : (item : Fields) → List Value → (path : String) (index : ℕ) → List Problem
    each_item item [] path index = []
    each_item item (v ∷ vs) path index =
        recur item v (item_path path index) ++ each_item item vs path (suc index)

    -- `_check_object`
    abbrev pub check_object : (schema document : Fields) → (path : String) → List Problem
    check_object schema d path =
        missing_names path (required schema) d
        ++ (each_property (properties schema) d path
            ++ (if is_closed schema then undeclared_names path (properties schema) d else []))

    -- `_check_array`
    abbrev pub check_array : (schema : Fields) → List Value → (path : String) → List Problem
    check_array schema vs path = elim (get "items" schema) [
      | some (obj item) ↦ each_item item vs path 0
      | _ ↦ []
    ]

    abbrev pub check_parts :
        (schema : Fields) → Value → (path : String) → List String → List Problem
    check_parts schema (obj d) path types =
        if is_elem "object" types then check_object schema d path else []
    check_parts schema (arr vs) path types =
        if is_elem "array" types then check_array schema (to_list vs) path else []
    check_parts schema _ path types = []

    abbrev pub check_type : (schema : Fields) → Value → (path : String) → List String → List Problem
    check_type schema v path [] = []
    check_type schema v path (t ∷ ts) =
        if any (λ d. matches d v) (t ∷ ts)
        then check_parts schema v path (t ∷ ts)
        else wrong_type path v (t ∷ ts) ∷ []

    abbrev pub check_body : (schema : Fields) → Value → (path : String) → List Problem
    check_body schema v path = elim (list_at "anyOf" schema) [
      | some bs ↦ if any_branch bs v path then [] else no_alternative path v ∷ []
      | none ↦ elim (list_at "enum" schema) [
        | some members ↦
            if any (λ m. same_json m v) members then [] else not_one_of path v members ∷ []
        | none ↦ check_type schema v path (declared_types schema)
      ]
    ]

  -- `_check`, on fuel for the depth of the schema
  unfoldable pub check : ℕ → (schema : Fields) → Value → (path : String) → List Problem
  check zero schema v path = []
  check (suc n) schema v path = check_body (check n) schema v path

unfoldable mutual
  pub size : Fields → ℕ
  size end = 0
  size (field k v d) = suc (value_size v + size d)

  pub value_size : Value → ℕ
  value_size (arr vs) = suc (items_size vs)
  value_size (obj d) = suc (size d)
  value_size _ = 0

  pub items_size : Items → ℕ
  items_size nil = 0
  items_size (cons v vs) = suc (value_size v + items_size vs)

-- `schema_problems`: a schema is deeper than none of its parts, so its size is fuel enough.
unfoldable pub schema_problems :
    ⦃py : Python⦄ → (schema : Fields) → Value → (name : String) → List Problem
unfolding check
schema_problems schema document name = check (suc (size schema)) schema document name
