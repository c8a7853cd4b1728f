-- ===== src/Runtime/Turning.antt =====
-- `_turn`, `send` and `send_structured`: a run from its start to its end, errors included.
use prism_harness_py.Runtime.Opening.{Sent, Setup}
use prism_harness_py.Prelude.{
  String, Bool, ◌&&◌, ◌||◌, Option, none, some, List, [], ◌∷◌, ◌++◌, map, if◌then◌else◌, str_eq,
}
use prism_harness_py.Value.{Value, str, obj, arr, of_list, Fields, field, end}
use prism_harness_py.Python.{Python}
use prism_harness_py.Exec.{Exec, pure, lift, ◌>>=◌, ◌>>◌}
use prism_harness_py.Session.{Session}
use prism_harness_py.ThreadRows.Scope.{approval_tool_scope}
use prism_harness_py.Tools.Resolving.{resolve_detailed}
use prism_harness_py.Runtime.Data.{HarnessTool, AgentMode, Machine, Outside, Turn, is_in}
use prism_harness_py.Runtime.Steps.{on_session, thread_rows, record_rows}
use prism_harness_py.Runtime.Resolving.{resolve_approvals}
use prism_harness_py.Runtime.Offering.{AgentRuntime, is_narrowing, offer, authorized, tools_of}

-- `list(tool_names) if tool_names else mode.tools`
abbrev pub requested_or : List String → Option (List String) → List String
requested_or tools none = tools
requested_or tools (some []) = tools
requested_or tools (some requested) = requested

abbrev pub offer_widely :
    AgentRuntime → AgentMode → Option (List String) → Exec Session (List HarnessTool)
offer_widely rt mode requested = do
  detailed ← resolve_detailed rt.tools (requested_or mode.tools requested)
  authorized rt (tools_of detailed)

abbrev pub offer_narrowly :
    AgentRuntime → AgentMode → Option (List String) → Exec Session (List HarnessTool)
offer_narrowly rt mode requested = do both ← offer rt mode requested; pure both.0

abbrev pub offered_to :
    AgentRuntime → AgentMode → Option (List String) → Exec Session (List HarnessTool)
offered_to rt mode requested =
    if is_narrowing rt then offer_narrowly rt mode requested else offer_widely rt mode requested

abbrev pub may_stay : AgentMode → List String → HarnessTool → Bool
may_stay mode names tool =
    is_in tool.name names && (is_in "*" mode.tools || is_in tool.name mode.tools)

abbrev pub staying : AgentMode → List String → List HarnessTool → List HarnessTool
staying mode names [] = []
staying mode names (tool ∷ tools) =
    let rest = staying mode names tools in if may_stay mode names tool then tool ∷ rest else rest

-- The offer, bound by the scope of the last approval where there is one.
abbrev pub bound_by : AgentMode → Option (List String × Bool) → List HarnessTool → List HarnessTool
bound_by mode none offered = offered
bound_by mode (some (names, legacy)) offered = staying mode names offered

abbrev text_part : String → Value
text_part prompt = obj (field "text" (str prompt) end)

abbrev user_row : (prompt : String) → List Fields → Fields
user_row prompt [] = field "type" (str "user") (field "content" (str prompt) end)
user_row prompt attachments = field "type" (str "user") (
    field "content" (str prompt) (
      field "additional_content" (arr (of_list (map obj attachments ++ (text_part prompt ∷ []))))
        (field "additional_attributes" (obj end) end)))

abbrev pub record_prompt :
    Outside → (run_id prompt : String) → List Fields → Exec Machine (Unit {0})
record_prompt out run_id prompt attachments =
    if str_eq prompt ""
    then pure tt
    else record_rows out (some run_id) (user_row prompt attachments ∷ [])

abbrev pub turn_of : Setup → Option Fields → List HarnessTool → Turn
turn_of s schema offered = record {
  mode = s.mode;
  budget = s.run.budget;
  run_id = s.run_id;
  provider = s.provider;
  model = s.model;
  offered = offered;
  schema = schema;
}

abbrev pub resume_with :
    Outside → Sent → Setup → List HarnessTool × List String → Exec Machine (Turn × List String)
resume_with out sent s left = do
  record_prompt out s.run_id sent.prompt s.attachments
  pure (turn_of s sent.schema left.0, left.1)

abbrev pub resume_within :
    ⦃py : Python⦄
    → Outside
    → Sent
    → Setup
    → List HarnessTool
    → Option (List String × Bool)
    → Exec Machine (Turn × List String)
resume_within out sent s tools scope = do
  left ← resolve_approvals out s.mode (bound_by s.mode scope tools) s.run_id
  resume_with out sent s left

abbrev pub resume_after :
    ⦃py : Python⦄
    → Outside
    → Sent
    → Setup
    → List HarnessTool
    → List Fields
    → Exec Machine (Turn × List String)
resume_after out sent s tools rows = do
  scope ← lift (approval_tool_scope rows)
  resume_within out sent s tools scope

abbrev pub resume :
    ⦃py : Python⦄ → Outside → Sent → Setup → List HarnessTool → Exec Machine (Turn × List String)
resume out sent s tools = do rows ← thread_rows; resume_after out sent s tools rows

-- The `try` block, up to the loop: the turn to run, and the names of the tools that resolving the
-- approvals called.
unfoldable pub prepare :
    ⦃py : Python⦄ → Outside → AgentRuntime → Sent → Setup → Exec Machine (Turn × List String)
prepare out rt sent s = do
  tools ← on_session (offered_to rt s.mode sent.tool_names)
  resume out sent s tools
