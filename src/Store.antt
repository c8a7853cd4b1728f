-- ===== src/Store.antt =====
-- src/prism_harness/stores/base.py: the store contract.
-- `World` is what a client of `SessionStore` (stores/base.py) sees of one store: the payloads, the
-- locks that others hold for longer than a caller waits, and the clock. Each operation is one atomic
-- step, and a callback under `with_lock` is too, which is what the lock is for.
use prism_harness_py.Prelude.{
  ℕ, String, Bool, true, false, Option, none, some, List, [], ◌∷◌, ◌≡◌, ◌≢◌, refl, arith, str_eq,
  eq_iff, if◌then◌else◌,
}
use prism_harness_py.Value.{Fields, end}
use prism_harness_py.Errors.{harness, HarnessError}
use prism_harness_py.Result.{err}
use prism_harness_py.Exec.{Exec}
pub mod Memory
pub mod Recalling
mod Tests

pub data Durability : Type 0 where
  volatile durable : Durability

abbrev pub is_durable : Durability → Bool
is_durable durable = true
is_durable volatile = false

pub record World : Type 0 where
  pub entries : List (String × Fields)
  -- the wall clock, in ticks of 2^-22 seconds
  pub clock : ℕ
  -- keys whose lock cannot be had within the caller's wait
  pub busy : String → Bool

abbrev pub lookup : String → List (String × Fields) → Option Fields
lookup key [] = none
lookup key ((k, payload) ∷ entries) = if str_eq k key then some payload else lookup key entries

abbrev pub insert : String → Fields → List (String × Fields) → List (String × Fields)
insert key payload [] = (key, payload) ∷ []
insert key payload ((k, old) ∷ entries) =
    if str_eq k key then (k, payload) ∷ entries else (k, old) ∷ insert key payload entries

-- `store.get(key)`
abbrev pub get : String → World → Option Fields
get key w = lookup key w.entries

-- `store.get(key) or {}`
abbrev pub get_or_empty : String → World → Fields
get_or_empty key w = elim (get key w) [ none ↦ end | some payload ↦ payload ]

-- `store.put(key, payload)`, with no time to live
abbrev pub put : String → Fields → World → World
put key payload w = record w { entries = insert key payload w.entries }

abbrev remove : String → List (String × Fields) → List (String × Fields)
remove key [] = []
remove key ((k, payload) ∷ entries) =
    let rest = remove key entries in if str_eq k key then rest else (k, payload) ∷ rest

-- `store.forget(key)`
abbrev pub forget : String → World → World
forget key w = record w { entries = remove key w.entries }

-- `store.with_lock(key, callback)`: an exception leaves the lock released and what was put stored.
abbrev pub with_lock : {A : Type 0} → String → Exec World A → Exec World A
with_lock key callback w =
    if w.busy key then (err (harness (HarnessError.session_locked key)), w) else callback w

pub lookup-insert :
    (k j : String) (p : Fields) (entries : List (String × Fields))
    → lookup j (insert k p entries) ≡ (if str_eq k j then some p else lookup j entries)
lookup-insert k j p [] = refl
lookup-insert k j p ((i, q) ∷ entries) =
    ground (arith, eq_iff k j, eq_iff i k, eq_iff i j, lookup-insert k j p entries)

pub get-put_self : (k : String) (p : Fields) (w : World) → get k (put k p w) ≡ some p
get-put_self k p w = ground (arith, lookup-insert k k p w.entries, eq_iff k k)

pub get-put_ne : (k j : String) (p : Fields) (w : World) → k ≢ j → get j (put k p w) ≡ get j w
get-put_ne k j p w h = ground (arith, lookup-insert k j p w.entries, eq_iff k j)

lookup-remove :
    (k j : String) (entries : List (String × Fields))
    → lookup j (remove k entries) ≡ (if str_eq k j then none else lookup j entries)
lookup-remove k j [] = ground arith
lookup-remove k j ((i, q) ∷ entries) =
    ground (arith, eq_iff k j, eq_iff i k, eq_iff i j, lookup-remove k j entries)

pub get-forget_self : (k : String) (w : World) → get k (forget k w) ≡ none
get-forget_self k w = ground (arith, lookup-remove k k w.entries, eq_iff k k)
