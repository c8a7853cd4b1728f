-- ===== src/Tools/Registry.antt =====
-- `ToolRegistry`, for one agent or for none: what registering and replacing change.
use prism_harness_py.Prelude.{
  ℕ, String, Bool, true, false, ◌||◌, Option, none, some, List, [], ◌∷◌, if◌then◌else◌, str_eq,
  length,
}
use prism_harness_py.Prelude.Assoc.{lookup, insert, remove}
use Prim.Native.String.{◌++◌}
use prism_harness_py.Errors.{Error, value_error, registration_collision}
use prism_harness_py.Result.{Result, ok, err, ◌>>=◌, ◌>>◌}
use prism_harness_py.Registration.{registration_owner}
use prism_harness_py.Tools.Tool.{HarnessTool, ToolFactory, ToolProvider}

-- `metadata` has the owner and the source of each name.
pub record ToolRegistry : Type 0 where
  pub agent : Option String
  pub refuse_duplicates : Bool
  pub tools : List (String × HarnessTool)
  pub factories : List (String × ToolFactory)
  pub metadata : List (String × (String × String))
  pub static_owners : List (String × String)
  pub factory_owners : List (String × String)
  pub providers : List (String × (ToolProvider × String))

unfoldable pub new_registry : (agent : Option String) (refuse_duplicates : Bool) → ToolRegistry
new_registry agent refuse_duplicates = record {
  agent = agent;
  refuse_duplicates = refuse_duplicates;
  tools = [];
  factories = [];
  metadata = [];
  static_owners = [];
  factory_owners = [];
  providers = [];
}

abbrev pub is_named : Option String → Bool
is_named none = false
is_named (some _) = true

-- `_strict`
abbrev pub is_strict : ToolRegistry → Bool
is_strict r = is_named r.agent || r.refuse_duplicates

abbrev not_the_predecessor : Error
not_the_predecessor = value_error "Replacement must name the registered predecessor owner."

-- The checks of `_claim`: a replacement names the owner that is there, and in a strict registry
-- nothing else takes a name that is taken.
abbrev pub check_claim :
    (strict : Bool) (agent : Option String) (name label : String)
    → (previous : Option (String × String)) (predecessor : Option String) → Result (Unit {0})
check_claim strict agent name label none none = ok tt
check_claim strict agent name label (some (owner, source)) none =
    if strict then err (registration_collision agent name owner label) else ok tt
check_claim strict agent name label none (some predecessor) = err not_the_predecessor
check_claim strict agent name label (some (owner, source)) (some predecessor) =
    if str_eq owner predecessor then ok tt else err not_the_predecessor

abbrev pub cleared : String → ToolRegistry → ToolRegistry
cleared name r = record r {
  tools = remove name r.tools;
  factories = remove name r.factories;
  static_owners = remove name r.static_owners;
  factory_owners = remove name r.factory_owners;
}

-- The changes of `_claim`.
abbrev pub claimed :
    (name label source : String) (predecessor : Option String) → ToolRegistry → ToolRegistry
claimed name label source predecessor r =
    let left = if is_strict r || is_named predecessor then cleared name r else r in
    record left { metadata = insert name (label, source) r.metadata }

-- `_claim`, with the label that it claims for
unfoldable pub claim :
    (name : String) (owner : Option String) (source : String) (predecessor : Option String)
    → ToolRegistry
    → Result (String × ToolRegistry)
claim name owner source predecessor r = do
  label ← registration_owner owner r.agent
  check_claim (is_strict r) r.agent name label (lookup name r.metadata) predecessor
  ok (label, claimed name label source predecessor r)

abbrev pub with_tool : HarnessTool → String × ToolRegistry → ToolRegistry
with_tool tool (label, r) = record r {
  tools = insert tool.name tool r.tools;
  static_owners = insert tool.name label r.static_owners;
}

abbrev pub with_factory : String → ToolFactory → String × ToolRegistry → ToolRegistry
with_factory name factory (label, r) = record r {
  factories = insert name factory r.factories;
  factory_owners = insert name label r.factory_owners;
}

-- `register`
unfoldable pub register : HarnessTool → (owner : Option String) → ToolRegistry → Result ToolRegistry
unfolding claim
register tool owner r = do c ← claim tool.name owner "static" none r; ok (with_tool tool c)

-- `register_many`, and what is left of the registry when one is refused
unfoldable pub register_many :
    List HarnessTool → (owner : Option String) → ToolRegistry → Result (Unit {0}) × ToolRegistry
unfolding register
register_many [] owner r = (ok tt, r)
register_many (tool ∷ tools) owner r = elim (register tool owner r) [
  | err e ↦ (err e, r)
  | ok next ↦ register_many tools owner next
]

-- `register_factory`
unfoldable pub register_factory :
    (name : String) → ToolFactory → (owner : Option String) → ToolRegistry → Result ToolRegistry
unfolding claim
register_factory name factory owner r = do
  c ← claim name owner "factory" none r
  ok (with_factory name factory c)

-- `replace`
unfoldable pub replace :
    HarnessTool
    → (predecessor_owner : String) (owner : Option String) → ToolRegistry
    → Result ToolRegistry
unfolding claim
replace tool predecessor_owner owner r = do
  c ← claim tool.name owner "static" (some predecessor_owner) r
  ok (with_tool tool c)

-- `replace_factory`
unfoldable pub replace_factory :
    (name : String)
    → ToolFactory
    → (predecessor_owner : String) (owner : Option String) → ToolRegistry
    → Result ToolRegistry
unfolding claim
replace_factory name factory predecessor_owner owner r = do
  c ← claim name owner "factory" (some predecessor_owner) r
  ok (with_factory name factory c)

-- The name of a provider: a registry for no agent numbers those that are given none.
abbrev pub provider_name : (count : String) (agent name : Option String) → Result String
provider_name count agent (some name) =
    if str_eq name ""
    then err (value_error "A named provider requires a registration name.")
    else ok name
provider_name count none none = ok ("provider:" ++ count)
provider_name count (some _) none =
    err (value_error "A named provider requires a registration name.")

abbrev pub check_provider :
    (strict : Bool) (agent : Option String) (name label : String)
    → Option (ToolProvider × String)
    → Result (Unit {0})
check_provider strict agent name label none = ok tt
check_provider strict agent name label (some (_, owner)) =
    if strict then err (registration_collision agent name owner label) else ok tt

-- `register_provider`, over the text of a number
unfoldable pub register_provider :
    (show : ℕ → String)
    → ToolProvider
    → (owner name : Option String) → ToolRegistry
    → Result ToolRegistry
register_provider show provider owner name r = do
  label ← registration_owner owner r.agent
  identifier ← provider_name (show (length r.providers)) r.agent name
  check_provider (is_strict r) r.agent identifier label (lookup identifier r.providers)
  ok (record r { providers = insert identifier (provider, label) r.providers })

abbrev pub check_successor :
    (predecessor : String) → Option (ToolProvider × String) → Result (Unit {0})
check_successor predecessor none = err not_the_predecessor
check_successor predecessor (some (_, owner)) =
    if str_eq owner predecessor then ok tt else err not_the_predecessor

-- `replace_provider`
unfoldable pub replace_provider :
    (name : String)
    → ToolProvider
    → (predecessor_owner : String) (owner : Option String) → ToolRegistry
    → Result ToolRegistry
replace_provider name provider predecessor_owner owner r = do
  label ← registration_owner owner r.agent
  check_successor predecessor_owner (lookup name r.providers)
  ok (record r { providers = insert name (provider, label) r.providers })
