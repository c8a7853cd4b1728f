-- ===== src/Value/Equality.antt =====
-- Python's `==` on documents: True is 1 and 1.0 is 1, and dicts are equal whatever their order.
use prism_harness_py.Prelude.{
  ℕ, Bool, true, false, ◌&&◌, Option, none, some, ◌==◌, suc, ◌*◌, str_eq,
}
use prism_harness_py.Prelude.Int.{ℤ, pos, scale, leb_ℤ}
use prism_harness_py.Value.Data.{
  Value, null, bool, int, float, str, arr, obj, Items, nil, cons, Fields, end, field,
  ticks_per_second,
}
use prism_harness_py.Value.Dict.{get}

abbrev size : Fields → ℕ
size end = 0
size (field k v d) = suc (size d)

-- The number a value is, in ticks.
abbrev pub ticks : Value → Option ℤ
ticks (bool true) = some (pos ticks_per_second)
ticks (bool false) = some (pos 0)
ticks (int n) = some (scale ticks_per_second n)
ticks (float t) = some t
ticks _ = none

abbrev eq_ℤ : ℤ → ℤ → Bool
eq_ℤ a b = leb_ℤ a b && leb_ℤ b a

abbrev same_number : Option ℤ → Option ℤ → Bool
same_number (some a) (some b) = eq_ℤ a b
same_number _ _ = false

mutual
  pub same : Value → Value → Bool
  same null null = true
  same (str s) (str t) = str_eq s t
  same (arr vs) (arr ws) = same_items vs ws
  same (obj d) (obj e) = size d == size e && same_fields d e
  same v w = same_number (ticks v) (ticks w)

  same_items : Items → Items → Bool
  same_items nil nil = true
  same_items (cons v vs) (cons w ws) = same v w && same_items vs ws
  same_items _ _ = false

  same_fields : Fields → Fields → Bool
  same_fields end e = true
  same_fields (field k v d) e =
      elim (get k e) [ none ↦ false | some w ↦ same v w ] && same_fields d e

-- `d.get(key) == n`, for a number
abbrev pub is_number : Option Value → ℕ → Bool
is_number none n = false
is_number (some v) n = same_number (ticks v) (some (pos (n * ticks_per_second)))
