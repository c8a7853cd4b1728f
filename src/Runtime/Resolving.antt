-- ===== src/Runtime/Resolving.antt =====
-- `_unresolved`, `_run_approved`, `_resolve_approvals` and `record_approval`.
use prism_harness_py.Prelude.{
  String, Bool, not, ◌||◌, ◌&&◌, Option, none, some, List, [], ◌∷◌, ◌++◌, any, if◌then◌else◌,
  str_eq,
}
use Prim.Native.String.{◌++◌ as ◌+str◌}
use prism_harness_py.Value.{Fields, get}
use prism_harness_py.Python.{Python}
use prism_harness_py.Result.{Result, ok, err}
use prism_harness_py.Exec.{Exec, pure, lift, ◌>>=◌, ◌>>◌}
use prism_harness_py.Session.{lock, run, thread, text_of}
use prism_harness_py.ThreadRows.Rows.{
  ToolCallInput, Request, Assistant, ResultEntry, Decision, ToolResult, Row, assistant, tool_result,
  other, tool_result_entry, tool_result_row,
}
use prism_harness_py.ThreadRows.View.{recent_first, assign_all}
use prism_harness_py.ThreadRows.Scope.{approval_tool_scope}
use prism_harness_py.Runtime.Data.{HarnessTool, AgentMode, Machine, Outside, needs_approval, is_in}
use prism_harness_py.Runtime.Steps.{
  on_session, thread_rows, record_rows, invoke, find_tool, is_refusal,
}
use prism_harness_py.Runtime.Responses.{is_empty}

-- What a turn that stopped for a person left to do, with what is known of it.
pub record Work : Type 0 where
  pub calls : List ToolCallInput
  pub results : List ResultEntry
  pub decisions : List Decision
  pub requests : List Request

-- The last turn that called tools, and the first tool result after it, in a view with its last row
-- first. The second argument is the result that was passed last.
abbrev pub asking_turn : List Row → Option ToolResult → Option (Assistant × Option ToolResult)
asking_turn [] answered = none
asking_turn (assistant a ∷ view) answered =
    let earlier = asking_turn view answered in
    if is_empty a.tool_calls then earlier else some (a, answered)
asking_turn (tool_result t ∷ view) answered = asking_turn view (some t)
asking_turn (other type d ∷ view) answered = asking_turn view answered

-- `{entry["tool_call_id"]: entry ...}` and `{decision["approval_id"]: decision ...}`, as their values
abbrev pub results_in : Option ToolResult → List ResultEntry
results_in none = []
results_in (some t) = assign_all (λ e. e.tool_call_id) t.results []

abbrev pub decisions_in : Option ToolResult → List Decision
decisions_in none = []
decisions_in (some t) = assign_all (λ d. d.approval_id) t.decisions []

abbrev pub has_result : List ResultEntry → String → Bool
has_result results id = any (λ e. str_eq e.tool_call_id id) results

-- `{request["tool_call_id"]: request["approval_id"] ...}.get(id)`
abbrev pub approval_for : List Request → String → Option String
approval_for [] id = none
approval_for (r ∷ requests) id =
    let later = approval_for requests id in
    elim later [
      | some a ↦ some a
      | none ↦ if str_eq r.tool_call_id id then some r.approval_id else none
    ]

abbrev pub decision_for : List Decision → Option String → Option Decision
decision_for decisions none = none
decision_for [] (some id) = none
decision_for (d ∷ decisions) (some id) =
    let rest = decision_for decisions (some id) in if str_eq d.approval_id id then some d else rest

abbrev is_asked : List Request → String → Bool
is_asked requests id = any (λ r. str_eq r.tool_call_id id) requests

abbrev pub waits : AgentMode → List Request → List ResultEntry → ToolCallInput → Bool
waits mode requests results call =
    not (has_result results call.id) && (is_asked requests call.id || needs_approval mode call.name)

abbrev pub waiting_calls :
    AgentMode → List Request → List ResultEntry → List ToolCallInput → List ToolCallInput
waiting_calls mode requests results [] = []
waiting_calls mode requests results (call ∷ calls) =
    let rest = waiting_calls mode requests results calls in
    if waits mode requests results call then call ∷ rest else rest

abbrev pub work_unless_empty : Work → Option Work
work_unless_empty work = if is_empty work.calls then none else some work

abbrev pub work_in : AgentMode → Option (Assistant × Option ToolResult) → Option Work
work_in mode none = none
work_in mode (some (a, answered)) = work_unless_empty (record {
  calls = waiting_calls mode a.requests (results_in answered) a.tool_calls;
  results = results_in answered;
  decisions = decisions_in answered;
  requests = a.requests;
})

abbrev pub unresolved_in : AgentMode → Result (List Row) → Result (Option Work)
unresolved_in mode (err e) = err e
unresolved_in mode (ok view) = ok (work_in mode (asking_turn view none))

-- `_unresolved`, but for the scope, which `approval_tool_scope` reads from the same rows
unfoldable pub unresolved : ⦃py : Python⦄ → AgentMode → List Fields → Result (Option Work)
unresolved mode rows = unresolved_in mode (recent_first rows)

-- What `_run_approved` makes of a call that raised.
abbrev pub refused_call : ToolCallInput → Result ResultEntry → Result ResultEntry
refused_call call (ok entry) = ok entry
refused_call call (err e) =
    if is_refusal e
    then ok (
        tool_result_entry call
          ("Not run: this call to " +str (call.name +str " is not authorized.")))
    else err e

-- `_run_approved`
unfoldable pub run_approved :
    ⦃py : Python⦄ → Outside → List HarnessTool → ToolCallInput → Exec Machine ResultEntry
run_approved out offered call m = elim (find_tool offered call.name) [
  | none ↦ (
    ok (
        tool_result_entry call
          ("Not run: " +str (call.name +str " is not available to this run."))),
    m,
  )
  | some tool ↦ let (r, after) = invoke out offered call m in (refused_call call r, after)
]

-- `decision["reason"] or "User denied tool execution"`
abbrev pub denial : Option String → String
denial none = "User denied tool execution"
denial (some reason) = if str_eq reason "" then "User denied tool execution" else reason

-- The call as it is made again, without the ids of its reasoning.
abbrev pub remade : ToolCallInput → ToolCallInput
remade call = record call { reasoning_id = none; reasoning_summary = none }

abbrev pub approved_call :
    ⦃py : Python⦄
    → Outside
    → List HarnessTool
    → ToolCallInput
    → Exec Machine (List String × ResultEntry)
approved_call out bounded call = do
  entry ← run_approved out bounded (remade call)
  pure (call.name ∷ [], entry)

-- What one waiting call comes to, with the names of the tools that were called for it.
abbrev pub answer_call :
    ⦃py : Python⦄
    → Outside
    → List HarnessTool
    → ToolCallInput
    → Option Decision
    → Exec Machine (List String × ResultEntry)
answer_call out bounded call none =
    pure ([], tool_result_entry (remade call) "No approval response provided")
answer_call out bounded call (some decision) =
    if decision.approved
    then approved_call out bounded call
    else pure ([], tool_result_entry (remade call) (denial decision.reason))

abbrev pub decided : Work → ToolCallInput → Option Decision
decided work call = decision_for work.decisions (approval_for work.requests call.id)

abbrev pub answer_then :
    Exec Machine (List String × ResultEntry)
    → Exec Machine (List String × List ResultEntry)
    → Exec Machine (List String × List ResultEntry)
answer_then one more = do first ← one; rest ← more; pure (first.0 ++ rest.0, first.1 ∷ rest.1)

-- The loop over the waiting calls.
unfoldable pub answer_calls :
    ⦃py : Python⦄
    → Outside
    → List HarnessTool
    → Work
    → List ToolCallInput
    → Exec Machine (List String × List ResultEntry)
answer_calls out bounded work [] = pure ([], [])
answer_calls out bounded work (call ∷ calls) =
    answer_then (answer_call out bounded call (decided work call))
      (answer_calls out bounded work calls)

-- `[tool for tool in offered if scope is not None and tool.name in scope[0]]`
abbrev pub within_scope : Option (List String × Bool) → List HarnessTool → List HarnessTool
within_scope none offered = []
within_scope (some scope) [] = []
within_scope (some scope) (tool ∷ offered) =
    let rest = within_scope (some scope) offered in
    if is_in tool.name scope.0 then tool ∷ rest else rest

-- The row that answers a turn: every result and every decision, with the new results last.
abbrev pub answers_row : Work → List ResultEntry → Fields
answers_row work answers =
    tool_result_row (record { results = work.results ++ answers; decisions = work.decisions })

abbrev pub resolve_work :
    ⦃py : Python⦄
    → Outside
    → (run_id : String) → List HarnessTool
    → Work
    → Exec Machine (List HarnessTool × List String)
resolve_work out run_id bounded work = do
  answered ← answer_calls out bounded work work.calls
  record_rows out (some run_id) (answers_row work answered.1 ∷ [])
  pure (bounded, answered.0)

abbrev pub resolve_left :
    ⦃py : Python⦄
    → Outside
    → (run_id : String) → List HarnessTool
    → Option Work
    → Option (List String × Bool)
    → Exec Machine (List HarnessTool × List String)
resolve_left out run_id offered none scope = pure (offered, [])
resolve_left out run_id offered (some work) scope =
    resolve_work out run_id (within_scope scope offered) work

-- The callback of `_resolve_approvals`, under the session's lock.
abbrev pub resolve_rows :
    ⦃py : Python⦄
    → Outside
    → AgentMode
    → List HarnessTool
    → (run_id : String) → List Fields
    → Exec Machine (List HarnessTool × List String)
resolve_rows out mode offered run_id rows = do
  left ← lift (unresolved mode rows)
  scope ← lift (approval_tool_scope rows)
  resolve_left out run_id offered left scope

-- The lock is had, what was cached is dropped, and the rows are read again.
abbrev pub resolve_if :
    ⦃py : Python⦄
    → Outside
    → AgentMode
    → List HarnessTool
    → (run_id : String) → Option Work
    → Exec Machine (List HarnessTool × List String)
resolve_if out mode offered run_id none = pure (offered, [])
resolve_if out mode offered run_id (some _) = do
  on_session (lock (λ s. (ok tt, s)))
  again ← thread_rows
  resolve_rows out mode offered run_id again

-- `_resolve_approvals`, with the names of the tools that it called.
unfoldable pub resolve_approvals :
    ⦃py : Python⦄
    → Outside
    → AgentMode
    → List HarnessTool
    → (run_id : String) → Exec Machine (List HarnessTool × List String)
unfolding unresolved answer_calls
resolve_approvals out mode offered run_id = do
  rows ← thread_rows
  left ← lift (unresolved mode rows)
  resolve_if out mode offered run_id left

abbrev run_id_of : Option Fields → Option String
run_id_of none = none
run_id_of (some d) = text_of (get "id" d)

-- `record_approval`
unfoldable pub record_approval :
    Outside
    → (approval_id : String) (approved : Bool) (reason : Option String) → Exec Machine (Unit {0})
record_approval out approval_id approved reason = do
  current ← on_session run
  on_session thread
  record_rows out (run_id_of current) (
      tool_result_row (record {
        results = [];
        decisions = record { approval_id = approval_id; approved = approved; reason = reason } ∷ [];
      })
      ∷ [])
