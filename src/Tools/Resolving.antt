-- ===== src/Tools/Resolving.antt =====
-- `resolve_detailed` and `resolve`: the tools that a session gets for a list of names.
use prism_harness_py.Prelude.{
  String, Bool, true, false, Option, none, some, List, [], ◌∷◌, ◌++◌, if◌then◌else◌, str_eq,
}
use prism_harness_py.Prelude.Assoc.{lookup, insert, keys, is_in}
use Prim.Native.Nat.{Ordering}
use Prim.Native.String.{compare, ◌++◌ as ◌+str◌}
use prism_harness_py.Errors.{
  Error, harness, HarnessError, value_error, registration_collision, key_error,
}
use prism_harness_py.Result.{Result, ok, err}
use prism_harness_py.Exec.{Exec, pure, raise, lift, ◌>>=◌}
use prism_harness_py.Session.{Session}
use prism_harness_py.Tools.Tool.{HarnessTool, ToolFactory, ToolProvider, ResolvedTool}
use prism_harness_py.Tools.Registry.{ToolRegistry, is_strict}

-- What the providers of one resolution gave, and the registry's notes with theirs.
pub record Provided : Type 0 where
  pub tools : List (String × HarnessTool)
  pub metadata : List (String × (String × String))

abbrev pub taken : (strict : Bool) → Option (String × String) → Option String
taken false previous = none
taken true none = none
taken true (some (owner, source)) = some owner

abbrev pub provide_one : ToolRegistry → (owner : String) → HarnessTool → Provided → Result Provided
provide_one r owner tool p = elim (taken (is_strict r) (lookup tool.name p.metadata)) [
  | some previous ↦ err (registration_collision r.agent tool.name previous owner)
  | none ↦ ok (record {
    tools = insert tool.name tool p.tools;
    metadata = insert tool.name (owner, "provider") p.metadata;
  })
]

abbrev pub provide_each :
    ToolRegistry → (owner : String) → List HarnessTool → Provided → Result Provided
provide_each r owner [] p = ok p
provide_each r owner (tool ∷ tools) p = elim (provide_one r owner tool p) [
  | err e ↦ err e
  | ok next ↦ provide_each r owner tools next
]

-- The loop over the providers.
unfoldable pub provide_all :
    ToolRegistry → List (String × (ToolProvider × String)) → Provided → Exec Session Provided
provide_all r [] p = pure p
provide_all r ((_, (provider, owner)) ∷ providers) p = do
  tools ← provider
  next ← lift (provide_each r owner tools p)
  provide_all r providers next

-- One name into a sorted list of distinct names.
abbrev pub sort_in : String → List String → List String
sort_in s [] = s ∷ []
sort_in s (t ∷ ts) =
    let rest = sort_in s ts in
    elim (compare s t) [
      | Ordering.lt ↦ s ∷ (t ∷ ts)
      | Ordering.eq ↦ t ∷ ts
      | Ordering.gt ↦ t ∷ rest
    ]

abbrev sort_all : List String → List String
sort_all [] = []
sort_all (s ∷ ss) = sort_in s (sort_all ss)

-- `sorted({*self._tools, *self._factories, *provided})`
abbrev pub available : ToolRegistry → Provided → List String
available r p = sort_all (keys r.tools ++ (keys r.factories ++ keys p.tools))

-- `names`
unfoldable pub names : ToolRegistry → List String
names r = sort_all (keys r.tools ++ keys r.factories)

-- `self._tools.get(name) or provided.get(name)`
abbrev pub existing : ToolRegistry → Provided → String → Option HarnessTool
existing r p name = elim (lookup name r.tools) [
  | some tool ↦ some tool
  | none ↦ lookup name p.tools
]

abbrev pub at_key : {A : Type 0} → String → List (String × A) → Result A
at_key key items = elim (lookup key items) [ some a ↦ ok a | none ↦ err (key_error key) ]

abbrev is_static : ToolRegistry → String → Bool
is_static r name = elim (lookup name r.tools) [ some _ ↦ true | none ↦ false ]

abbrev static_details : ToolRegistry → String → Result (String × String)
static_details r name = elim (at_key name r.static_owners) [
  | ok owner ↦ ok (owner, "static")
  | err e ↦ err e
]

-- The owner and the source of a tool that is there.
abbrev pub details : ToolRegistry → Provided → String → Result (String × String)
details r p name = if is_static r name then static_details r name else at_key name p.metadata

abbrev pub resolved_tool : HarnessTool → String × String → ResolvedTool
resolved_tool tool (owner, source) = record { tool = tool; owner = owner; source = source }

abbrev pub wrongly_named : (name built : String) → Error
wrongly_named name built =
    value_error
      ("Session-bound tool factory [" +str (name +str ("] returned [" +str (built +str "]."))))

-- The notes after a factory returned a tool of another name, which a strict registry refuses.
abbrev pub check_built :
    ToolRegistry
    → (name built : String) → List (String × (String × String))
    → Result (List (String × (String × String)))
check_built r name built metadata =
    if str_eq built name
    then ok metadata
    else if is_strict r
    then err (wrongly_named name built)
    else elim (at_key name metadata) [ err e ↦ err e | ok noted ↦ ok (insert built noted metadata) ]

abbrev pub built_by :
    Provided
    → HarnessTool
    → List (String × (String × String))
    → (owner : String) → Exec Session (ResolvedTool × Provided)
built_by p tool metadata owner =
    pure
      (record { tool = tool; owner = owner; source = "factory" }, record p { metadata = metadata })

abbrev pub own_built :
    ToolRegistry
    → Provided
    → (name : String) → HarnessTool
    → List (String × (String × String))
    → Exec Session (ResolvedTool × Provided)
own_built r p name tool metadata = lift (at_key name r.factory_owners) >>= built_by p tool metadata

abbrev pub note_built :
    ToolRegistry → Provided → (name : String) → HarnessTool → Exec Session (ResolvedTool × Provided)
note_built r p name tool =
    lift (check_built r name tool.name p.metadata) >>= own_built r p name tool

abbrev pub build :
    ToolRegistry → Provided → (name : String) → ToolFactory → Exec Session (ResolvedTool × Provided)
build r p name factory = factory >>= note_built r p name

abbrev pub factory_or_refuse :
    ToolRegistry
    → Provided
    → (name : String) → Option ToolFactory
    → Exec Session (ResolvedTool × Provided)
factory_or_refuse r p name none =
    raise (harness (HarnessError.tool_not_available name (available r p)))
factory_or_refuse r p name (some factory) = build r p name factory

abbrev pub found :
    ToolRegistry → Provided → (name : String) → HarnessTool → Exec Session (ResolvedTool × Provided)
found r p name tool = do noted ← lift (details r p name); pure (resolved_tool tool noted, p)

-- One name of the loop over the selected ones.
abbrev pub resolve_one :
    ToolRegistry → Provided → (name : String) → Exec Session (ResolvedTool × Provided)
resolve_one r p name = elim (existing r p name) [
  | some tool ↦ found r p name tool
  | none ↦ factory_or_refuse r p name (lookup name r.factories)
]

unfoldable pub resolve_each :
    ToolRegistry
    → Provided
    → List String
    → List (String × ResolvedTool)
    → Exec Session (List (String × ResolvedTool))
resolve_each r p [] resolved = pure resolved
resolve_each r p (name ∷ names) resolved = do
  one ← resolve_one r p name
  resolve_each r one.1 names (insert name one.0 resolved)

-- `available if "*" in names else list(names)`
abbrev pub selected : List String → List String → List String
selected names all = if is_in "*" names then all else names

-- `resolve_detailed`, for a session of the registry's own agent
unfoldable pub resolve_detailed :
    ToolRegistry → List String → Exec Session (List (String × ResolvedTool))
unfolding provide_all resolve_each
resolve_detailed r names = do
  p ← provide_all r r.providers (record { tools = []; metadata = r.metadata })
  resolve_each r p (selected names (available r p)) []
