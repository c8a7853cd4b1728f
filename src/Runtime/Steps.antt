-- ===== src/Runtime/Steps.antt =====
-- `_invoke`, `_assert_document`, `_finish`, and what the steps of a run are made of.
use prism_harness_py.Prelude.{
  String, Bool, true, false, Option, none, some, List, [], ◌∷◌, map, ltb, if◌then◌else◌, str_eq,
}
use prism_harness_py.Prelude.Int.{ℤ}
use Prim.Native.String.{◌++◌}
use prism_harness_py.Value.{Value, null, str, Fields}
use prism_harness_py.Errors.{Error, harness, HarnessError, Exhaustion}
use prism_harness_py.Python.{Python}
use prism_harness_py.Result.{Result, ok, err}
use prism_harness_py.Exec.{Exec}
use prism_harness_py.Session.{Session, complete_run, thread_key}
use prism_harness_py.Subagents.{RunLedger}
use prism_harness_py.Structured.Check.{Problem, schema_problems, schema_name}
use prism_harness_py.Thread.{ThreadMessage}
use prism_harness_py.Thread
use prism_harness_py.ThreadRows.Rows.{ToolCallInput, ResultEntry, tool_result_entry}
use prism_harness_py.Runtime.Data.{
  HarnessTool, LlmResponse, AgentResponse, Event, run_finished, Machine, Outside, Turn,
}

-- A method of the session, as a step of the machine.
abbrev pub on_session : {A : Type 0} → Exec Session A → Exec Machine A
on_session f m = let (r, s) = f m.session in (r, record m { session = s })

abbrev pub messages_of : Result (List ThreadMessage) → Result (List Fields)
messages_of (ok all) = ok (map (λ e. e.message) all)
messages_of (err e) = err e

-- `[entry.message for entry in thread.messages()]`
abbrev pub thread_rows : Exec Machine (List Fields)
thread_rows m = (messages_of (Thread.messages (thread_key m.session) m.session.durable), m)

abbrev returned : {A : Type 0} → Result A → Result (Unit {0})
returned (ok a) = ok tt
returned (err e) = err e

-- `thread.record(rows, run_id)`
abbrev pub record_rows : Outside → (run_id : Option String) → List Fields → Exec Machine (Unit {0})
record_rows out run_id rows m =
    let (r, w) =
      Thread.record_messages (thread_key m.session) rows run_id (out.stamp m.clock)
        m.session.durable in
    (returned r, record m { session = record m.session { durable = w } })

abbrev pub find_tool : List HarnessTool → String → Option HarnessTool
find_tool [] name = none
find_tool (tool ∷ tools) name =
    let rest = find_tool tools name in if str_eq tool.name name then some tool else rest

-- `error.code == "call_not_authorized"`, for a `HarnessError`
abbrev pub is_refusal : Error → Bool
is_refusal (harness (HarnessError.call_not_authorized _)) = true
is_refusal _ = false

-- `result if isinstance(result, str) else json.dumps(result)`
abbrev pub result_text : ⦃py : Python⦄ → Value → String
result_text (str s) = s
result_text ⦃py⦄ v = py.json v

-- What `_invoke` makes of a tool's return or exception. A refused call propagates.
abbrev pub tool_outcome :
    ⦃py : Python⦄ → Outside → ToolCallInput → Result Value → Result ResultEntry
tool_outcome out call (ok v) = ok (tool_result_entry call (result_text v))
tool_outcome out call (err e) =
    if is_refusal e
    then err e
    else ok (tool_result_entry call ("The tool failed: " ++ out.error_text e))

-- `_invoke`
unfoldable pub invoke :
    ⦃py : Python⦄ → Outside → List HarnessTool → ToolCallInput → Exec Machine ResultEntry
invoke out offered call m = elim (find_tool offered call.name) [
  | none ↦
      (err (harness (HarnessError.tool_not_available call.name (map (λ t. t.name) offered))), m)
  | some tool ↦
      let (r, after) = out.handle tool call.arguments m in (tool_outcome out call r, after)
]

abbrev pub is_null : Value → Bool
is_null null = true
is_null _ = false

abbrev pub violation : Outside → LlmResponse → List Problem → Result (Unit {0})
violation out response [] = ok tt
violation out response problems =
    err
      (harness (HarnessError.structured_schema_violation response.text (map out.describe problems)))

-- `_assert_document`
unfoldable pub assert_document : ⦃py : Python⦄ → Outside → Fields → LlmResponse → Result (Unit {0})
assert_document out schema response =
    if is_null response.structured
    then err (harness (HarnessError.structured_unreadable response.text))
    else violation out response (schema_problems schema response.structured (schema_name schema))

-- `None if run.ledger.unmetered_runs > 0 else run.ledger.cost_usd`
abbrev metered_cost : RunLedger → Option ℤ
metered_cost ledger = if ltb 0 ledger.unmetered_runs then none else some ledger.cost_usd

abbrev pub emit : Event → Machine → Machine
emit e m = record m { events = e ∷ m.events }

abbrev pub finished_event : Turn → (finish_reason : String) (called : List String) → Machine → Event
finished_event t finish_reason called m =
    run_finished t.run_id m.session.key finish_reason called m.ledger.steps (metered_cost m.ledger)

abbrev pub response_of :
    Turn
    → (finish_reason text : String) (called : List String) (why : Option Exhaustion)
      (document : Option Value)
    → Machine
    → AgentResponse
response_of t finish_reason text called why document m = record {
  run_id = t.run_id;
  text = text;
  steps = m.ledger.steps;
  tool_calls = called;
  finish_reason = finish_reason;
  pending_approvals = [];
  stopped_because = why;
  structured = document;
}

-- `_finish`
unfoldable pub finish :
    Outside
    → Turn
    → (finish_reason text : String) (called : List String) (why : Option Exhaustion)
      (document : Option Value)
    → Exec Machine AgentResponse
finish out t finish_reason text called why document m =
    let (r, after) =
      on_session (complete_run t.run_id finish_reason called (out.stamp m.clock)) m in
    elim r [
      | err e ↦ (err e, after)
      | ok _ ↦ (
        ok (response_of t finish_reason text called why document after),
        emit (finished_event t finish_reason called after) after,
      )
    ]
