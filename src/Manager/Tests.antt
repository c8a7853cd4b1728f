-- ===== src/Manager/Tests.antt =====
-- A manager over a durable and a volatile driver.
use prism_harness_py.Errors.{HarnessError, harness}
use prism_harness_py.Result.{err, ok}
use prism_harness_py.Manager.Slots.{resolve_stable, resolve_all}
use prism_harness_py.Store.{is_durable, volatile, Durability, durable}
use prism_harness_py.Manager.{open_manager, Handle, resolve}
use prism_harness_py.Prelude.{true, String, refl, ◌≡◌, ◌∷◌, [], List}

abbrev drivers : List (String × Durability)
drivers = ("file", durable) ∷ (("memory", volatile) ∷ [])

abbrev stores : List (String × String)
stores = ("ephemeral", "memory") ∷ (("durable", "file") ∷ [])

abbrev first_file : Handle
first_file = record { driver = "file"; durability = durable; serial = 1 }

abbrev durable_slot : String
durable_slot = "durable"

stable_example :
    ((resolve "durable" (
        resolve_all
          ("ephemeral" ∷ [])
          (resolve "durable" (resolve_all ("ephemeral" ∷ []) (open_manager drivers stores))).1)).0
      ≡ ok first_file)
    × (durable_slot ≡ "durable" → is_durable first_file.durability ≡ true)
unfolding resolve open_manager
stable_example =
    resolve_stable drivers stores ("ephemeral" ∷ []) ("ephemeral" ∷ []) "durable" first_file refl

-- The default driver is refused for the durable slot where it is volatile.
durable-refused :
    (resolve "durable" (open_manager (("default", volatile) ∷ []) [])).0
    ≡ err (harness (HarnessError.volatile_durable_store "durable" "default"))
unfolding resolve open_manager
durable-refused = refl
