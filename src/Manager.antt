-- ===== src/Manager.antt =====
-- src/prism_harness/stores/manager.py: `SessionStoreManager`, which resolves the two state slots. A
-- store is a handle: its driver, the durability it reports, and the place of its factory's call among
-- all calls, since a factory makes a new store each time. That an exception of a factory passes
-- through is not modelled.
use prism_harness_py.Prelude.{
  ℕ, ◌+◌, String, Bool, true, false, ◌&&◌, not, Option, none, some, List, [], ◌∷◌, if◌then◌else◌,
  str_eq,
}
use prism_harness_py.Errors.{harness, HarnessError}
use prism_harness_py.Result.{Result, ok, err}
use prism_harness_py.Store.{Durability, is_durable}
mod Tests
pub mod Slots

pub record Handle : Type 0 where
  pub driver : String
  pub durability : Durability
  pub serial : ℕ

abbrev pub find : {A : Type 0} → String → List (String × A) → Option A
find key [] = none
find key ((k, a) ∷ rest) = if str_eq k key then some a else find key rest

pub record Manager : Type 0 where
  -- what the factory of a driver makes
  pub drivers : List (String × Durability)
  pub slots : List (String × String)
  pub resolved : List (String × Handle)
  pub made : ℕ

abbrev pub or_default : Option String → String
or_default none = "default"
or_default (some name) = name

-- `__init__`, of the drivers and the stores configured
unfoldable pub open_manager : List (String × Durability) → List (String × String) → Manager
open_manager drivers stores = record {
  drivers = drivers;
  slots =
      ("ephemeral", or_default (find "ephemeral" stores))
      ∷ (("durable", or_default (find "durable" stores)) ∷ []);
  resolved = [];
  made = 0;
}

-- A store that a factory made for the slot: kept, or refused.
abbrev keep : (slot name : String) → Durability → Manager → Result Handle × Manager
keep slot name durability m =
    let handle : Handle = record { driver = name; durability = durability; serial = m.made } in
    let counted : Manager = record m { made = m.made + 1 } in
    if str_eq slot "durable" && not (is_durable durability)
    then (err (harness (HarnessError.volatile_durable_store slot name)), counted)
    else (ok handle, record counted { resolved = (slot, handle) ∷ m.resolved })

abbrev make : (slot name : String) → Manager → Result Handle × Manager
make slot name m = elim (find name m.drivers) [
  | none ↦ (err (harness (HarnessError.unknown_store_driver slot name)), m)
  | some durability ↦ keep slot name durability m
]

-- `slot`
unfoldable pub resolve : (slot : String) → Manager → Result Handle × Manager
resolve slot m = elim (find slot m.resolved) [
  | some handle ↦ (ok handle, m)
  | none ↦ make slot (or_default (find slot m.slots)) m
]
