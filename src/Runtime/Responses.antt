-- ===== src/Runtime/Responses.antt =====
-- `_loop`: the request of a step, the row that its response is recorded in, and the ends of a run.
use prism_harness_py.Prelude.{
  ℕ, ◌+◌, String, Bool, true, false, ◌||◌, ◌&&◌, Option, none, some, List, [], ◌∷◌, map,
  if◌then◌else◌, str_eq,
}
use prism_harness_py.Prelude.Int.{pos}
use Prim.Native.String.{◌++◌ as ◌+str◌}
use prism_harness_py.Value.{Value, str, arr, Fields, put, of_list}
use prism_harness_py.Errors.{Error, harness, HarnessError, FinishFailure}
use prism_harness_py.Result.{ok, err}
use prism_harness_py.Exec.{Exec, pure, raise, ◌>>◌}
use prism_harness_py.Subagents.{record_steps, record_cost}
use prism_harness_py.ThreadRows.Rows.{
  ToolCallInput, Request, ResultEntry, Row, assistant_row, tool_result_entry, tool_result_row,
}
use prism_harness_py.Runtime.Data.{
  HarnessTool, AgentMode, LlmRequest, LlmResponse, AgentResponse, Machine, Outside, Turn, Progress,
  Next, done, call_input, needs_approval,
}
use prism_harness_py.Runtime.Steps.{record_rows, finish}

abbrev pub request_of : Turn → List Row → LlmRequest
request_of t view = record {
  system_prompt = t.mode.system_prompt;
  messages = view;
  tools = t.offered;
  provider = t.provider;
  model = t.model;
  provider_options = t.mode.provider_options;
  schema = t.schema;
  max_output_tokens = t.budget.max_output_tokens_per_call;
}

-- `run.ledger.record_steps(1)` and `run.ledger.record_cost(response.cost_usd)`
abbrev pub charge : LlmResponse → Machine → Machine
charge response m = record m {
  ledger = record_cost (record_steps m.ledger (pos 1)) response.cost_usd;
}

-- `finish_reason in ("error", "unknown")`
abbrev pub is_failed : String → Bool
is_failed reason = str_eq reason "error" || str_eq reason "unknown"

-- The calls that wait for a person, each with the approval request that is drawn for it.
abbrev pub gate :
    (hex : ℕ → String)
    → AgentMode
    → List ToolCallInput
    → Machine
    → List (ToolCallInput × Request) × Machine
gate hex mode [] m = ([], m)
gate hex mode (call ∷ calls) m =
    if needs_approval mode call.name
    then (let (rest, after) = gate hex mode calls (record m { drawn = m.drawn + 1 }) in
        (
          (call, record { approval_id = "apr_" +str hex m.drawn; tool_call_id = call.id }) ∷ rest,
          after,
        ))
    else gate hex mode calls m

abbrev pub gated_calls :
    Outside → Turn → LlmResponse → Exec Machine (List (ToolCallInput × Request))
gated_calls out t response m =
    if is_failed response.finish_reason
    then (ok [], m)
    else (let (gated, after) = gate out.hex t.mode (map call_input response.tool_calls) m in
        (ok gated, after))

abbrev pub is_empty : {A : Type 0} → List A → Bool
is_empty [] = true
is_empty _ = false

abbrev is_some : {A : Type 0} → Option A → Bool
is_some none = false
is_some (some _) = true

-- What goes into the row beside the text: on a structured turn's answer, the document too.
abbrev metadata : Turn → LlmResponse → Fields
metadata t response =
    if is_some t.schema && is_empty response.tool_calls
    then put "structured" response.structured response.additional_content
    else response.additional_content

abbrev pub with_names : List Request → List HarnessTool → Fields → Fields
with_names [] offered row = row
with_names _ offered row =
    put "harness_tool_names" (arr (of_list (map (λ t. str t.name) offered))) row

abbrev pub response_row : Turn → LlmResponse → List Request → Fields
response_row t response requests = with_names requests t.offered (
    assistant_row (record {
      content = response.text;
      tool_calls = map call_input response.tool_calls;
      additional_content = metadata t response;
      requests = requests;
    }))

abbrev pub results_row : List ResultEntry → Fields
results_row results = tool_result_row (record { results = results; decisions = [] })

-- No call of a failed response runs, now or when the run is resumed.
abbrev pub refusals : LlmResponse → List ResultEntry
refusals response =
    map
      (λ c.
        tool_result_entry (call_input c)
          ("Not run: model step failed (" +str (response.finish_reason +str ").")))
      response.tool_calls

abbrev pub record_results : Outside → Turn → List ResultEntry → Exec Machine (Unit {0})
record_results out t results =
    if is_empty results then pure tt else record_rows out (some t.run_id) (results_row results ∷ [])

abbrev pub failure_of : LlmResponse → Error
failure_of response = harness (
    HarnessError.model_step_failed (
      if str_eq response.finish_reason "error" then FinishFailure.error else FinishFailure.unknown))

unfoldable pub refuse : Outside → Turn → LlmResponse → Exec Machine Next
refuse out t response = record_results out t (refusals response) >> raise (failure_of response)

-- The run is over, with the response that `_finish` makes.
abbrev pub over : Exec Machine AgentResponse → Exec Machine Next
over ends m =
    let (r, after) = ends m in
    elim r [ err e ↦ (err e, after) | ok ended ↦ (ok (done ended), after) ]

abbrev pub end_run :
    Outside → Turn → Progress → LlmResponse → (document : Option Value) → Exec Machine Next
end_run out t st response document =
    over (finish out t response.finish_reason response.text st.called none document)
