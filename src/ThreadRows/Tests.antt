-- ===== src/ThreadRows/Tests.antt =====
-- A stored turn, in the rows of today and of version 0.1.0, and the view's theorem at it.
use prism_harness_py.ThreadRows.Authority.{approval_tool_scope-AreNames}
use prism_harness_py.ThreadRows.Scope.{is_tool_name, scope_from, approval_tool_scope}
use prism_harness_py.Prelude.{false, true, All, length, refl, [], ◌∷◌, ◌≡◌, map, none, List}
use prism_harness_py.Value.{nil, cons, arr, str, Fields, field, end}
use prism_harness_py.Python.{bytes, Python}
use prism_harness_py.Result.{Result, ok, err}
use prism_harness_py.ThreadRows.Rows.{Row, row_fields, assistant_row}
use prism_harness_py.ThreadRows.View.{fold, view_from, recent_first, thread_view}
use prism_harness_py.ThreadRows.Reading.{thread_view-written}

abbrev plain_python : Python
plain_python = record { show = λ v. ""; json = λ v. "{}"; b64decode = λ s. bytes 1 }

abbrev asked : Fields
asked = assistant_row (record {
  content = "";
  tool_calls =
      record {
        id = "a";
        name = "read";
        arguments = end;
        result_id = none;
        reasoning_id = none;
        reasoning_summary = none;
      }
      ∷ [];
  additional_content = end;
  requests = [];
})

abbrev old_result : Fields
old_result =
    field "type" (str "tool_result")
      (field "tool_call_id" (str "a") (field "name" (str "read") (field "result" (str "done") end)))

abbrev old_decision : Fields
old_decision = field "type" (str "tool_approval_response") (field "approval_id" (str "a") end)

abbrev stored : List Fields
stored = asked ∷ (old_result ∷ (old_decision ∷ []))

abbrev rows_of : Result (List Row) → List Row
rows_of (ok view) = view
rows_of (err e) = []

abbrev view : List Row
view = rows_of (thread_view ⦃py = plain_python⦄ stored)

two_rows : length view ≡ 2
unfolding thread_view recent_first view_from assistant_row fold
two_rows = refl

written_example : thread_view ⦃py = plain_python⦄ (map row_fields view) ≡ ok view
unfolding thread_view recent_first view_from assistant_row fold
written_example = thread_view-written ⦃py = plain_python⦄ view (tt, tt, (tt, tt, tt))

-- A turn that asked, stored with the tools that it was offered.
abbrev waiting : Fields
waiting = field "harness_tool_names" (arr (cons (str "read") (cons (str "read") nil))) (
    assistant_row (record {
      content = "";
      tool_calls = [];
      additional_content = end;
      requests = record { approval_id = "apr_0"; tool_call_id = "a" } ∷ [];
    }))

scope_example : All (λ s. is_tool_name s ≡ true) ("read" ∷ [])
unfolding approval_tool_scope scope_from recent_first view_from assistant_row
scope_example =
    approval_tool_scope-AreNames ⦃py = plain_python⦄ (waiting ∷ []) ("read" ∷ []) false refl
