-- ===== src/Runtime/ApprovalTests.antt =====
-- A stored turn that waits for a person, answered, and each theorem on approvals at it.
use prism_harness_py.Runtime.Steps.{invoke}
use prism_harness_py.Runtime.Tests.{machine, delete, mode, outside, plain_python, read, call}
use prism_harness_py.Prelude.{String, refl, [], ◌∷◌, ◌≡◌, ◌++◌, true, none, some, List, Option}
use prism_harness_py.Value.{str, Fields, field, end}
use prism_harness_py.Result.{Result, ok, err}
use prism_harness_py.ThreadRows.Rows.{
  ResultEntry, Row, tool_result_entry, assistant_row, tool_result_row,
}
use prism_harness_py.ThreadRows.View.{fold, view_from, recent_first}
use prism_harness_py.Runtime.Data.{Machine, HarnessTool, call_input, needs_approval}
use prism_harness_py.Runtime.Resolving.{run_approved, Work, unresolved, answer_calls, answers_row}
use prism_harness_py.Runtime.Once.{unresolved-answered}

-- The model asked to read and to delete, the reading was done, and the deletion was approved.
abbrev asked : Fields
asked = assistant_row (record {
  content = "";
  tool_calls = call_input (call "a" "read") ∷ (call_input (call "b" "delete") ∷ []);
  additional_content = end;
  requests = record { approval_id = "apr_0"; tool_call_id = "b" } ∷ [];
})

abbrev was_read : Fields
was_read = tool_result_row (record {
  results = tool_result_entry (call_input (call "a" "read")) "done" ∷ [];
  decisions = [];
})

abbrev granted : Fields
granted = tool_result_row (record {
  results = [];
  decisions = record { approval_id = "apr_0"; approved = true; reason = none } ∷ [];
})

abbrev rows : List Fields
rows = asked ∷ (was_read ∷ (granted ∷ []))

abbrev no_work : Work
no_work = record { calls = []; results = []; decisions = []; requests = [] }

abbrev work_of : Result (Option Work) → Work
work_of (ok (some work)) = work
work_of r = no_work

abbrev rows_of : Result (List Row) → List Row
rows_of (ok view) = view
rows_of (err e) = []

abbrev entries_of :
    Result (List String × List ResultEntry) × Machine → List String × List ResultEntry
entries_of (ok answered, m) = answered
entries_of (err e, m) = ([], [])

abbrev work : Work
work = work_of (unresolved ⦃py = plain_python⦄ mode rows)

abbrev tools : List HarnessTool
tools = read ∷ (delete ∷ [])

abbrev answered : List String × List ResultEntry
answered = entries_of (answer_calls ⦃py = plain_python⦄ outside tools work work.calls machine)

once_example :
    unresolved ⦃py = plain_python⦄ mode (rows ++ (answers_row work answered.1 ∷ [])) ≡ ok none
unfolding unresolved recent_first view_from assistant_row tool_result_row tool_result_entry fold
    answer_calls run_approved invoke needs_approval
once_example =
    unresolved-answered ⦃py = plain_python⦄ outside mode tools rows
      (rows_of (recent_first ⦃py = plain_python⦄ rows)) work machine machine answered refl refl refl
      refl

-- A row of another type that is stored between the results of a turn and the end keeps its answers
-- from being found: the deletion waits again after it was done.
abbrev note : Fields
note = field "type" (str "system") (field "content" (str "") end)

abbrev noted : List Fields
noted = asked ∷ (was_read ∷ (granted ∷ (note ∷ [])))

abbrev noted_work : Work
noted_work = work_of (unresolved ⦃py = plain_python⦄ mode noted)

abbrev noted_answers : List String × List ResultEntry
noted_answers =
    entries_of (answer_calls ⦃py = plain_python⦄ outside tools noted_work noted_work.calls machine)

called_once : noted_answers.0 ≡ "delete" ∷ []
unfolding unresolved recent_first view_from assistant_row tool_result_row tool_result_entry fold
    answer_calls run_approved invoke needs_approval
called_once = refl

called_twice :
    unresolved ⦃py = plain_python⦄ mode (noted ++ (answers_row noted_work noted_answers.1 ∷ []))
    ≡ ok (some noted_work)
unfolding unresolved recent_first view_from assistant_row tool_result_row tool_result_entry fold
    answer_calls run_approved invoke needs_approval
called_twice = refl
