-- ===== src/Runtime/Offering.antt =====
-- `_settings`, `_offer` and `effective_tools`: the tools that a run is offered. The registries and the
-- authorizer are the ones of the session's agent, which `for_agent` makes once.
use prism_harness_py.Prelude.{
  String, Bool, true, false, ◌&&◌, ◌||◌, Option, none, some, List, [], ◌∷◌, if◌then◌else◌,
}
use prism_harness_py.Prelude.Assoc.{lookup, insert}
use prism_harness_py.Value.{Fields, merge}
use prism_harness_py.Errors.{harness, HarnessError, key_error}
use prism_harness_py.Result.{Result, ok, err}
use prism_harness_py.Exec.{Exec, pure, lift, ◌>>=◌, ◌>>◌}
use prism_harness_py.Session.{Session, resolve_read_only}
use prism_harness_py.Session
use prism_harness_py.Modes.Mode.{AgentMode}
use prism_harness_py.Modes.Registry.{ModeRegistry}
use prism_harness_py.Modes.Resolution
use prism_harness_py.Tools.Tool.{HarnessTool, ResolvedTool}
use prism_harness_py.Tools.Registry.{ToolRegistry}
use prism_harness_py.Tools.Resolving.{resolve_detailed}
use prism_harness_py.Tools.Authorizer.{
  ToolAuthorizer, AgentOptions, for_agent, has_call_policy, allowed,
}
use prism_harness_py.Runtime.Data.{Machine}
use prism_harness_py.Runtime.Settings.{narrowed_tools}

-- `AgentRuntime`, for a session of the agent. `authorizer` is the root's, with the options of its agents.
pub record AgentRuntime : Type 0 where
  pub agent : Option String
  pub modes : ModeRegistry
  pub tools : ToolRegistry
  pub authorizer : Option (ToolAuthorizer Machine × List (String × AgentOptions Machine))
  pub config : Fields
  pub agents : List (String × Fields)
  pub narrow_requested_tools : Bool

abbrev overlaid : Fields → Option Fields → Fields
overlaid config none = config
overlaid config (some own) = merge config own

-- `_settings`
unfoldable pub settings : AgentRuntime → Fields
settings rt = elim rt.agent [
  | none ↦ rt.config
  | some agent ↦ overlaid rt.config (lookup agent rt.agents)
]

abbrev pub scoped :
    Option String
    → ToolAuthorizer Machine × List (String × AgentOptions Machine)
    → Result (ToolAuthorizer Machine)
scoped none (root, agents) = ok root
scoped (some agent) (root, agents) = for_agent Machine root agents agent

abbrev pub is_named : Option String → Bool
is_named none = false
is_named (some _) = true

-- `requested or mode.tools`
abbrev listed_or : List String → Option (List String) → List String
listed_or tools none = tools
listed_or tools (some []) = tools
listed_or tools (some requested) = requested

abbrev pub is_narrowing : AgentRuntime → Bool
is_narrowing rt = is_named rt.agent || rt.narrow_requested_tools

abbrev pub offered_names : AgentRuntime → AgentMode → Option (List String) → Result (List String)
offered_names rt mode requested =
    if is_narrowing rt
    then narrowed_tools mode.tools requested
    else ok (listed_or mode.tools requested)

abbrev refused_completion : {A : Type 0} → Result A
refused_completion = err (harness HarnessError.unsafe_task_completion)

abbrev judged : Result (ToolAuthorizer Machine) → Result (Unit {0})
judged (err e) = err e
judged (ok a) = if a.enabled && has_call_policy Machine a then ok tt else refused_completion

abbrev pub may_complete :
    Option String
    → Option (ToolAuthorizer Machine × List (String × AgentOptions Machine))
    → Result (Unit {0})
may_complete agent none = refused_completion
may_complete agent (some root) = judged (scoped agent root)

abbrev is_present : Option ResolvedTool → Bool
is_present none = false
is_present (some _) = true

-- An agent that has a name completes tasks only under a call policy.
unfoldable pub check_completion : AgentRuntime → List (String × ResolvedTool) → Result (Unit {0})
check_completion rt detailed =
    if is_named rt.agent && is_present (lookup "complete_task" detailed)
    then may_complete rt.agent rt.authorizer
    else ok tt

abbrev pub tools_of : List (String × ResolvedTool) → List HarnessTool
tools_of [] = []
tools_of ((name, entry) ∷ detailed) = entry.tool ∷ tools_of detailed

abbrev pub allowed_by :
    Option String
    → Option (ToolAuthorizer Machine × List (String × AgentOptions Machine))
    → List HarnessTool
    → Exec Session (List HarnessTool)
allowed_by agent none tools = pure tools
allowed_by agent (some root) tools = do a ← lift (scoped agent root); allowed Machine a tools

unfoldable pub authorized : AgentRuntime → List HarnessTool → Exec Session (List HarnessTool)
authorized rt tools = allowed_by rt.agent rt.authorizer tools

-- Who a tool is from, as the harness shows it.
pub record OwnedTool : Type 0 where
  pub name : String
  pub owner : String
  pub source : String

-- `{entry.tool.name: entry for entry in detailed.values()}`
abbrev pub ownership :
    List (String × ResolvedTool) → List (String × ResolvedTool) → List (String × ResolvedTool)
ownership [] owners = owners
ownership ((name, entry) ∷ detailed) owners =
    ownership detailed (insert entry.tool.name entry owners)

abbrev pub owned : List (String × ResolvedTool) → List HarnessTool → Result (List OwnedTool)
owned owners [] = ok []
owned owners (tool ∷ tools) = elim (lookup tool.name owners) [
  | none ↦ err (key_error tool.name)
  | some entry ↦ elim (owned owners tools) [
    | err e ↦ err e
    | ok rest ↦ ok (record { name = tool.name; owner = entry.owner; source = entry.source } ∷ rest)
  ]
]

abbrev pub show_owned :
    List (String × ResolvedTool)
    → List HarnessTool
    → Exec Session (List HarnessTool × List OwnedTool)
show_owned detailed offered = do
  rows ← lift (owned (ownership detailed []) offered)
  pure (offered, rows)

abbrev pub offer_detailed :
    AgentRuntime → List (String × ResolvedTool) → Exec Session (List HarnessTool × List OwnedTool)
offer_detailed rt detailed = do
  lift (check_completion rt detailed)
  offered ← authorized rt (tools_of detailed)
  show_owned detailed offered

abbrev pub offer_names :
    AgentRuntime → List String → Exec Session (List HarnessTool × List OwnedTool)
offer_names rt names = do detailed ← resolve_detailed rt.tools names; offer_detailed rt detailed

-- The callback of `_offer`, on the read-only view.
abbrev pub offer_in :
    AgentRuntime
    → AgentMode
    → Option (List String)
    → Exec Session (List HarnessTool × List OwnedTool)
offer_in rt mode requested = do names ← lift (offered_names rt mode requested); offer_names rt names

-- `_offer`
unfoldable pub offer :
    AgentRuntime
    → AgentMode
    → Option (List String)
    → Exec Session (List HarnessTool × List OwnedTool)
unfolding check_completion authorized
offer rt mode requested = resolve_read_only mode.name (offer_in rt mode requested)

-- `mode_name if mode_name is not None else session.mode()`
abbrev chosen_mode : Option String → Exec Session (Option String)
chosen_mode none = Session.mode
chosen_mode (some name) = pure (some name)

-- `effective_tools`
unfoldable pub effective_tools :
    AgentRuntime → (mode_name : Option String) → Exec Session (List OwnedTool)
unfolding offer
effective_tools rt mode_name = do
  name ← chosen_mode mode_name
  mode ← lift (Resolution.resolve name rt.modes)
  both ← offer rt mode none
  pure both.1
