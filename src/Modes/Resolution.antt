-- ===== src/Modes/Resolution.antt =====
-- `ModeRegistry.resolve`, with the subagents that it checks.
use prism_harness_py.Modes.Registry.{names, default}
use prism_harness_py.Modes.Registry.{ModeRegistry, default, dict_in, strings}
use prism_harness_py.Prelude.{
  String, Bool, true, false, ◌&&◌, not, Option, none, some, List, [], ◌∷◌, if◌then◌else◌, str_eq,
}
use prism_harness_py.Prelude.Int.{ℤ, pos, leb_ℤ}
use Prim.Native.String.{◌++◌}
use prism_harness_py.Value.{
  Value, null, bool, int, float, str, arr, obj, Items, Fields, end, field, get, put,
}
use prism_harness_py.Errors.{Error, harness, HarnessError}
use prism_harness_py.Result.{Result, ok, err, ◌>>=◌}
use prism_harness_py.Subagents.{Subagent, subagent_from_config}
use prism_harness_py.Modes.Mode.{AgentMode}

-- Is a mode of this name configured?
abbrev pub mode_named : Fields → String → Option Fields
mode_named config name = elim (dict_in (get "modes" config)) [
  | none ↦ none
  | some modes ↦ dict_in (get name modes)
]

abbrev prompt_of : Option Value → Option String
prompt_of none = some ""
prompt_of (some (str s)) = some s
prompt_of _ = none

abbrev steps_of : Option Value → Option ℤ
steps_of none = some (pos 8)
steps_of (some (int n)) = if leb_ℤ (pos 1) n then some n else none
steps_of _ = none

-- What Python takes for false
abbrev is_empty_value : Value → Bool
is_empty_value null = true
is_empty_value (bool b) = not b
is_empty_value (int n) = leb_ℤ n (pos 0) && leb_ℤ (pos 0) n
is_empty_value (float t) = leb_ℤ t (pos 0) && leb_ℤ (pos 0) t
is_empty_value (str s) = str_eq s ""
is_empty_value (arr Items.nil) = true
is_empty_value (arr _) = false
is_empty_value (obj end) = true
is_empty_value (obj _) = false

-- `mode.get("subagents") or {}`, where it is a mapping
abbrev declared_in : (name : String) → Option Value → Result Fields
declared_in name none = ok end
declared_in name (some (obj d)) = ok d
declared_in name (some v) =
    if is_empty_value v
    then ok end
    else err (harness (HarnessError.mode_malformed name "its subagent list is not a mapping"))

abbrev not_configured : (name key mode : String) → Error
not_configured name key mode = harness (
    HarnessError.mode_malformed name
      ("it declares subagent [" ++ (key ++ ("], whose mode [" ++ (mode ++ "] is not configured")))))

abbrev check_subagent : Fields → (name key : String) → Subagent → Result (String × Subagent)
check_subagent config name key s = elim (mode_named config s.mode) [
  | none ↦ err (not_configured name key s.mode)
  | some _ ↦ ok (key, s)
]

abbrev pub read_subagent : Fields → (name key : String) → Value → Result (String × Subagent)
read_subagent config name key (obj d) =
    subagent_from_config key d >>= check_subagent config name key
read_subagent config name key _ =
    err (harness (HarnessError.mode_malformed name ("subagent [" ++ (key ++ "] is not an object"))))

-- The loop of `_subagents_for`
unfoldable pub subagents_in :
    (config : Fields) (name : String) → Fields → Result (List (String × Subagent))
subagents_in config name end = ok []
subagents_in config name (field key v d) = do
  one ← read_subagent config name key v
  rest ← subagents_in config name d
  ok (one ∷ rest)

-- `_provider_options`
unfoldable pub provider_options : (name : String) → Option Value → Result Fields
provider_options name none = ok end
provider_options name (some null) = ok end
provider_options name (some (obj d)) = ok d
provider_options name (some _) = err (
    harness
      (HarnessError.mode_malformed name "provider_options must be a map of option names to values"))

abbrev malformed : (name : String) → Error
malformed name = harness (
    HarnessError.mode_malformed name
      "system_prompt must be a string and max_steps a positive integer")

abbrev pub valued : {A : Type 0} → Error → Option A → Result A
valued e none = err e
valued e (some a) = ok a

abbrev pub read_mode : (config : Fields) (name : String) → Fields → Result AgentMode
read_mode config name mode = do
  prompt ← valued (malformed name) (prompt_of (get "system_prompt" mode))
  max_steps ← valued (malformed name) (steps_of (get "max_steps" mode))
  declared ← declared_in name (get "subagents" mode)
  subagents ← subagents_in config name declared
  options ← provider_options name (get "provider_options" mode)
  ok (record {
    name = name;
    system_prompt = prompt;
    tools = strings (get "tools" mode);
    skills = strings (get "skills" mode);
    max_steps = max_steps;
    subagents = subagents;
    requires_approval = strings (get "requires_approval" mode);
    provider_options = options;
  })

abbrev wanted : ModeRegistry → Option String → String
wanted r none = default r
wanted r (some name) = name

-- `resolve`
unfoldable pub resolve : Option String → ModeRegistry → Result AgentMode
unfolding default subagents_in provider_options strings
resolve name r = elim (mode_named r.config (wanted r name)) [
  | none ↦ err (harness (HarnessError.mode_not_configured (wanted r name)))
  | some mode ↦ read_mode r.config (wanted r name) mode
]

-- `set_default`
unfoldable pub set_default : (name : String) → ModeRegistry → Result ModeRegistry
unfolding resolve
set_default name r = do
  checked ← resolve (some name) r
  ok (record r { config = put "default" (str name) r.config })

abbrev resolve_names : ModeRegistry → List String → Result (List (String × AgentMode))
resolve_names r [] = ok []
resolve_names r (name ∷ names) = do
  mode ← resolve (some name) r
  rest ← resolve_names r names
  ok ((name, mode) ∷ rest)

-- `all`
unfoldable pub all_modes : ModeRegistry → Result (List (String × AgentMode))
unfolding names resolve
all_modes r = resolve_names r (names r)
