-- ===== src/Runtime/Loop.antt =====
-- `_loop`: one step of a run, and the steps on fuel.
use prism_harness_py.Prelude.{
  ℕ, zero, suc, String, Option, none, some, List, [], ◌∷◌, ◌++◌, map, if◌then◌else◌,
}
use prism_harness_py.Python.{Python}
use prism_harness_py.Result.{Result, ok, err}
use prism_harness_py.Exec.{Exec, pure, lift, ◌>>=◌, ◌>>◌}
use prism_harness_py.Session.{assert_writable}
use prism_harness_py.Subagents.{exhaustion}
use prism_harness_py.ThreadRows.Rows.{ToolCallInput, Request, ResultEntry, Row}
use prism_harness_py.ThreadRows.View.{thread_view}
use prism_harness_py.Runtime.Data.{
  LlmResponse, PendingApproval, AgentResponse, Machine, Outside, Turn, Progress, Next, done, again,
  call_input, needs_approval,
}
use prism_harness_py.Runtime.Steps.{
  on_session, thread_rows, record_rows, invoke, assert_document, finish,
}
use prism_harness_py.Runtime.Responses.{
  charge, end_run, gated_calls, is_empty, is_failed, over, record_results, refuse, request_of,
  response_row,
}

-- A response with no calls ends the run, if a document that was asked for is there and fits.
unfoldable pub conclude :
    ⦃py : Python⦄ → Outside → Turn → Progress → LlmResponse → Exec Machine Next
conclude out t st response = elim t.schema [
  | none ↦ end_run out t st response none
  | some schema ↦
      lift (assert_document out schema response)
      >> end_run out t st response (some response.structured)
]

abbrev pub run_then :
    ⦃py : Python⦄
    → Outside
    → Turn
    → ToolCallInput
    → Exec Machine (List String × List ResultEntry)
    → Exec Machine (List String × List ResultEntry)
run_then out t call after = do
  entry ← invoke out t.offered call
  rest ← after
  pure (call.name ∷ rest.0, entry ∷ rest.1)

-- The calls that need nobody, in order, with their names and results. A call that is equal to a gated
-- one has its name, so it is gated too.
unfoldable pub run_calls :
    ⦃py : Python⦄
    → Outside
    → Turn
    → List ToolCallInput
    → Exec Machine (List String × List ResultEntry)
run_calls out t [] m = (ok ([], []), m)
run_calls out t (call ∷ calls) m =
    let after = run_calls out t calls in
    if needs_approval t.mode call.name then after m else run_then out t call after m

abbrev pub pending : ToolCallInput × Request → PendingApproval
pending (call, request) = record {
  id = request.approval_id;
  tool = call.name;
  arguments = call.arguments;
  tool_call_id = call.id;
}

abbrev pub waiting :
    Turn
    → LlmResponse
    → (called : List String) → List (ToolCallInput × Request)
    → Machine
    → AgentResponse
waiting t response called gated m = record {
  run_id = t.run_id;
  text = response.text;
  steps = m.ledger.steps;
  tool_calls = called;
  finish_reason = "awaiting_approval";
  pending_approvals = map pending gated;
  stopped_because = none;
  structured = none;
}

abbrev pub going_on :
    Turn
    → Progress
    → LlmResponse
    → List (ToolCallInput × Request)
    → (called : List String) → Exec Machine Next
going_on t st response gated called m = (
  ok (
      if is_empty gated
      then again (record { called = st.called ++ called; text = response.text })
      else done (waiting t response (st.called ++ called) gated m)),
  m,
)

abbrev pub after_calls :
    Outside
    → Turn
    → Progress
    → LlmResponse
    → List (ToolCallInput × Request)
    → List String × List ResultEntry
    → Exec Machine Next
after_calls out t st response gated ran =
    record_results out t ran.1 >> going_on t st response gated ran.0

unfoldable pub dispatch :
    ⦃py : Python⦄
    → Outside
    → Turn
    → Progress
    → LlmResponse
    → List (ToolCallInput × Request)
    → Exec Machine Next
unfolding run_calls
dispatch out t st response gated =
    run_calls out t (map call_input response.tool_calls) >>= after_calls out t st response gated

-- What a response that is recorded leads to.
abbrev pub act :
    ⦃py : Python⦄
    → Outside
    → Turn
    → Progress
    → LlmResponse
    → List (ToolCallInput × Request)
    → Exec Machine Next
act out t st response gated =
    if is_failed response.finish_reason
    then refuse out t response
    else if is_empty response.tool_calls
    then conclude out t st response
    else dispatch out t st response gated

abbrev pub record_response :
    Outside → Turn → LlmResponse → List (ToolCallInput × Request) → Exec Machine (Unit {0})
record_response out t response gated =
    record_rows out (some t.run_id) (response_row t response (map (λ g. g.1) gated) ∷ [])

abbrev pub record_then :
    ⦃py : Python⦄
    → Outside
    → Turn
    → Progress
    → LlmResponse
    → List (ToolCallInput × Request)
    → Exec Machine Next
record_then out t st response gated =
    record_response out t response gated >> act out t st response gated

unfoldable pub answer : ⦃py : Python⦄ → Outside → Turn → Progress → LlmResponse → Exec Machine Next
unfolding dispatch conclude refuse
answer out t st response = gated_calls out t response >>= record_then out t st response

abbrev pub charge_then : ⦃py : Python⦄ → Outside → Turn → Progress → LlmResponse → Exec Machine Next
charge_then out t st response m = answer out t st response (charge response m)

abbrev pub view_rows : ⦃py : Python⦄ → Exec Machine (List Row)
view_rows = do rows ← thread_rows; lift (thread_view rows)

abbrev pub ask_with : ⦃py : Python⦄ → Outside → Turn → Progress → List Row → Exec Machine Next
ask_with out t st view = out.client (request_of t view) >>= charge_then out t st

unfoldable pub ask : ⦃py : Python⦄ → Outside → Turn → Progress → Exec Machine Next
unfolding answer
ask out t st = view_rows >>= ask_with out t st

-- The loop's body: the budget is asked before the client is.
unfoldable pub step : ⦃py : Python⦄ → Outside → Turn → Progress → Exec Machine Next
unfolding ask
step out t st m = elim (exhaustion m.ledger t.budget m.clock) [
  | some why ↦ over (finish out t "budget_exhausted" st.text st.called (some why) none) m
  | none ↦ ask out t st m
]

abbrev pub follow :
    (Progress → Machine → Option (Result AgentResponse × Machine))
    → Result Next × Machine
    → Option (Result AgentResponse × Machine)
follow go (err e, m) = some (err e, m)
follow go (ok (done response), m) = some (ok response, m)
follow go (ok (again more), m) = go more m

-- The loop. None: the fuel was not enough.
unfoldable pub steps :
    ⦃py : Python⦄
    → Outside
    → Turn
    → (fuel : ℕ) → Progress
    → Machine
    → Option (Result AgentResponse × Machine)
unfolding step
steps out t zero st m = none
steps out t (suc fuel) st m = follow (steps out t fuel) (step out t st m)

abbrev pub start_loop :
    (Progress → Machine → Option (Result AgentResponse × Machine))
    → (called : List String) → Result (Unit {0}) × Machine
    → Option (Result AgentResponse × Machine)
start_loop go called (err e, m) = some (err e, m)
start_loop go called (ok _, m) = go (record { called = called; text = "" }) m

-- `_loop`. `session.thread()` comes first, which a read-only view of a session refuses.
unfoldable pub loop :
    ⦃py : Python⦄
    → Outside
    → Turn
    → (fuel : ℕ) → (called : List String) → Machine
    → Option (Result AgentResponse × Machine)
unfolding steps
loop out t fuel called m = start_loop (steps out t fuel) called (on_session assert_writable m)
