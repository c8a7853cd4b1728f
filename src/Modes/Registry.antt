-- ===== src/Modes/Registry.antt =====
-- `ModeRegistry`: the configured modes with their owners.
use prism_harness_py.Prelude.{
  String, Bool, true, false, ◌||◌, Option, none, some, List, [], ◌∷◌, if◌then◌else◌, str_eq,
}
use prism_harness_py.Prelude.Assoc.{lookup, insert}
use prism_harness_py.Value.{Value, null, str, arr, obj, Fields, end, field, get, put, to_list}
use prism_harness_py.Errors.{Error, value_error, type_error, registration_collision}
use prism_harness_py.Result.{Result, ok, err, ◌>>=◌, ◌>>◌}
use prism_harness_py.Address.{validate_agent}
use prism_harness_py.Registration.{registration_owner}

-- `config` is the registry's own dict of settings.
pub record ModeRegistry : Type 0 where
  pub config : Fields
  pub agent : Option String
  pub owners : List (String × String)
  pub refuse_duplicates : Bool

abbrev pub dict_in : Option Value → Option Fields
dict_in (some (obj d)) = some d
dict_in _ = none

-- `_strings`
abbrev texts : List Value → List String
texts [] = []
texts (str s ∷ vs) = s ∷ texts vs
texts (_ ∷ vs) = texts vs

unfoldable pub strings : Option Value → List String
strings (some (arr vs)) = texts (to_list vs)
strings _ = []

abbrev keys_of : Fields → List String
keys_of end = []
keys_of (field k v d) = k ∷ keys_of d

abbrev names_in : Option Fields → List String
names_in none = []
names_in (some modes) = keys_of modes

-- `names`
unfoldable pub names : ModeRegistry → List String
names r = names_in (dict_in (get "modes" r.config))

abbrev text_or_chat : Option Value → String
text_or_chat (some (str s)) = if str_eq s "" then "chat" else s
text_or_chat _ = "chat"

-- `default`
unfoldable pub default : ModeRegistry → String
default r = text_or_chat (get "default" r.config)

-- `registration_owner(config.get("owner"), agent)`
abbrev configured_owner : Option Value → Option String → Result String
configured_owner none agent = registration_owner none agent
configured_owner (some null) agent = registration_owner none agent
configured_owner (some (str s)) agent = registration_owner (some s) agent
configured_owner (some _) agent = registration_owner (some "") agent

abbrev own_all : (label : Result String) → List String → Result (List (String × String))
own_all label [] = ok []
own_all label (name ∷ names) = do
  owner ← label
  rest ← own_all label names
  ok ((name, owner) ∷ rest)

-- `__init__`
unfoldable pub new_modes : Fields → Option String → (refuse_duplicates : Bool) → Result ModeRegistry
unfolding names
new_modes config agent refuse_duplicates = do
  validate_agent agent
  owners ←
      own_all (configured_owner (get "owner" config) agent)
        (names_in (dict_in (get "modes" config)))
  ok (record {
    config = config;
    agent = agent;
    owners = owners;
    refuse_duplicates = refuse_duplicates;
  })

abbrev with_default : String → Fields → Fields
with_default name config = elim (get "default" config) [
  | none ↦ put "default" (str name) config
  | some _ ↦ config
]

abbrev no_mapping : Error
no_mapping = value_error "Agent modes must be configured as a mapping."

-- `agents.get(agent, {})`, where it is a dict
abbrev agent_config : Option Value → String → Result Fields
agent_config none agent = ok end
agent_config (some (obj agents)) agent = elim (get agent agents) [
  | none ↦ ok end
  | some (obj d) ↦ ok d
  | some _ ↦ err no_mapping
]
agent_config (some _) agent = err no_mapping

-- `for_agent`, of a named agent, the first time that it is asked for
unfoldable pub agent_registry : (root : ModeRegistry) → (agent : String) → Result ModeRegistry
unfolding new_modes default
agent_registry root agent = do
  validate_agent (some agent)
  config ← agent_config (get "agents" root.config) agent
  new_modes (with_default (default root) config) (some agent) root.refuse_duplicates

abbrev set_in : (name : String) → Fields → Option Value → Result Fields
set_in name mode none = ok (field name (obj mode) end)
set_in name mode (some (obj modes)) = ok (put name (obj mode) modes)
set_in name mode (some _) = err (type_error "Modes must be configured as a mapping.")

-- `_set`
unfoldable pub set_mode :
    (name : String) → Fields → (owner : String) → ModeRegistry → Result ModeRegistry
set_mode name mode owner r = do
  modes ← set_in name mode (get "modes" r.config)
  ok (record r { config = put "modes" (obj modes) r.config; owners = insert name owner r.owners })

abbrev is_named : Option String → Bool
is_named none = false
is_named (some _) = true

abbrev check_free : ModeRegistry → (name label : String) → Option String → Result (Unit {0})
check_free r name label none = ok tt
check_free r name label (some owner) =
    if is_named r.agent || r.refuse_duplicates
    then err (registration_collision r.agent name owner label)
    else ok tt

-- `register`
unfoldable pub register :
    (name : String) → Fields → (owner : Option String) → ModeRegistry → Result ModeRegistry
unfolding set_mode
register name mode owner r = do
  label ← registration_owner owner r.agent
  check_free r name label (lookup name r.owners)
  set_mode name mode label r

abbrev check_owner : (predecessor : String) → Option String → Result (Unit {0})
check_owner predecessor none =
    err (value_error "Replacement must name the registered predecessor owner.")
check_owner predecessor (some owner) =
    if str_eq owner predecessor
    then ok tt
    else err (value_error "Replacement must name the registered predecessor owner.")

-- `replace`
unfoldable pub replace :
    (name : String)
    → Fields
    → (predecessor_owner : String) (owner : Option String) → ModeRegistry
    → Result ModeRegistry
unfolding set_mode
replace name mode predecessor_owner owner r = do
  label ← registration_owner owner r.agent
  check_owner predecessor_owner (lookup name r.owners)
  set_mode name mode label r
