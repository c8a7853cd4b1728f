-- ===== src/Structured/Sizes.antt =====
-- A schema's parts are smaller than the schema.
use prism_harness_py.Prelude.{
  ◌<◌, String, Option, none, some, List, ◌≡◌, inl, inr, refl, ap, arith, Bool-cases, str_eq,
}
use prism_harness_py.Value.{
  Value, null, bool, int, float, str, arr, obj, Items, nil, cons, Fields, end, field, get, to_list,
}
use prism_harness_py.Structured.Check.{size, value_size, items_size, list_at, properties}
use prism_harness_py.Structured.Conforms.{IsIn, IsUnder}

size-get : (k : String) (d : Fields) (v : Value) → get k d ≡ some v → value_size v < size d
unfolding size
size-get k end v h = cc
size-get k (field j w d) v h = elim (Bool-cases (str_eq j k)) [
  | inl same ↦ let is : w ≡ v = ground arith in let eq = ap value_size is in omega (arith, eq)
  | inr other ↦ let below : get k d ≡ some v = ground arith in omega (arith, size-get k d v below)
]

size-IsIn : (vs : Items) (x : Value) → IsIn x (to_list vs) → value_size x < items_size vs
unfolding size
size-IsIn nil x h = absurd h
size-IsIn (cons v vs) x (inl is) = let eq = ap value_size is in omega (arith, eq)
size-IsIn (cons v vs) x (inr h) = omega (arith, size-IsIn vs x h)

size-IsUnder : (d : Fields) (k : String) (v : Value) → IsUnder k v d → value_size v < size d
unfolding size
size-IsUnder end k v h = absurd h
size-IsUnder (field j w d) k v (inl (same, is)) = let eq = ap value_size is in omega (arith, eq)
size-IsUnder (field j w d) k v (inr h) = omega (arith, size-IsUnder d k v h)

-- The branches under a key.
pub size-list_at :
    (k : String) (s : Fields) (vs : List Value) (b : Fields)
    → list_at k s ≡ some vs
    → IsIn (obj b) vs
    → size b < size s
unfolding size
size-list_at k s vs b h i = under (get k s) refl
  where
    under : (o : Option Value) → get k s ≡ o → size b < size s
    under (some (arr ws)) e =
        let is : to_list ws ≡ vs = ground arith in
        omega (arith, size-IsIn ws (obj b) (rw is i), size-get k s (arr ws) e)
    under none e = ground arith
    under (some null) e = ground arith
    under (some (bool x)) e = ground arith
    under (some (int x)) e = ground arith
    under (some (float x)) e = ground arith
    under (some (str x)) e = ground arith
    under (some (obj x)) e = ground arith

pub size-properties :
    (s : Fields) (name : String) (prop : Fields)
    → IsUnder name (obj prop) (properties s)
    → size prop < size s
unfolding size
size-properties s name prop h = under (get "properties" s) refl
  where
    under : (o : Option Value) → get "properties" s ≡ o → size prop < size s
    under (some (obj d)) e =
        let is : properties s ≡ d = ground arith in
        omega
          (arith, size-IsUnder d name (obj prop) (rw (← is) h), size-get "properties" s (obj d) e)
    under none e = absurd (rw e at h)
    under (some null) e = absurd (rw e at h)
    under (some (bool x)) e = absurd (rw e at h)
    under (some (int x)) e = absurd (rw e at h)
    under (some (float x)) e = absurd (rw e at h)
    under (some (str x)) e = absurd (rw e at h)
    under (some (arr x)) e = absurd (rw e at h)

pub size-items : (s item : Fields) → get "items" s ≡ some (obj item) → size item < size s
unfolding size
size-items s item h = omega (arith, size-get "items" s (obj item) h)
