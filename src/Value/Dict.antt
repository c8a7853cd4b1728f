-- ===== src/Value/Dict.antt =====
-- A dict with text keys: `get`, item assignment, `pop`, and their laws.
use prism_harness_py.Prelude.{
  String, Bool, true, false, Option, none, some, ◌≡◌, ◌≢◌, refl, arith, str_eq, eq_iff, eq_refl,
  if◌then◌else◌,
}
use prism_harness_py.Value.Data.{Value, null, bool, int, float, str, arr, obj, Fields, end, field}

-- `d.get(key)`
abbrev pub get : String → Fields → Option Value
get key end = none
get key (field k v d) = if str_eq k key then some v else get key d

-- `d[key] = value`, and `{**d, key: value}`
abbrev pub put : String → Value → Fields → Fields
put key v end = field key v end
put key v (field k w d) = if str_eq k key then field k v d else field k w (put key v d)

-- `{**d, **e}`
abbrev pub merge : Fields → Fields → Fields
merge d end = d
merge d (field k v e) = merge (put k v d) e

-- `d.get(key, default)`
abbrev pub get_or : String → Fields → Value → Value
get_or key d default = elim (get key d) [ none ↦ default | some v ↦ v ]

-- `key in d`
abbrev pub contains : String → Fields → Bool
contains key d = elim (get key d) [ none ↦ false | some _ ↦ true ]

-- `d.get(key) == text`
abbrev pub is_text : Option Value → String → Bool
is_text (some (str s)) t = str_eq s t
is_text _ t = false

pub get-put :
    (k j : String) (v : Value) (d : Fields)
    → get j (put k v d) ≡ (if str_eq k j then some v else get j d)
get-put k j v end = refl
get-put k j v (field i w d) = ground (arith, eq_iff k j, eq_iff i k, eq_iff i j, get-put k j v d)

pub get-put_self : (k : String) (v : Value) (d : Fields) → get k (put k v d) ≡ some v
get-put_self k v d = ground (arith, get-put k k v d, eq_iff k k)

pub get-put_ne : (k j : String) (v : Value) (d : Fields) → k ≢ j → get j (put k v d) ≡ get j d
get-put_ne k j v d h = ground (arith, get-put k j v d, eq_iff k j)

-- The test for a text, read as an equation.
pub is_text-eq : (o : Option Value) (t : String) → is_text o t ≡ true → o ≡ some (str t)
is_text-eq (some (str s)) t h = ground (arith, eq_iff s t)
is_text-eq (some null) t h = cc
is_text-eq (some (bool b)) t h = cc
is_text-eq (some (int n)) t h = cc
is_text-eq (some (float n)) t h = cc
is_text-eq (some (arr vs)) t h = cc
is_text-eq (some (obj d)) t h = cc
is_text-eq none t h = cc

pub is_text_self : (t : String) → is_text (some (str t)) t ≡ true
is_text_self t = eq_refl t

-- A value is one text at most.
pub is_text_other :
    (o : Option Value) (s t : String) → is_text o s ≡ true → s ≢ t → is_text o t ≡ false
is_text_other o s t h ne = rw (is_text-eq o s h) (ground (arith, eq_iff s t))
