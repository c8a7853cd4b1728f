-- ===== src/ThreadRows/View.antt =====
-- `thread_view`: stored rows in today's shape, with consecutive tool results folded into one.
use prism_harness_py.Prelude.{
  String, Bool, true, false, ◌||◌, Option, none, some, List, [], ◌∷◌, ◌++◌, map, if◌then◌else◌,
  str_eq,
}
use prism_harness_py.Value.{
  Value, null, bool, str, arr, obj, Items, nil, Fields, end, get, dicts, to_list, is_list,
}
use prism_harness_py.Errors.{key_error}
use prism_harness_py.Result.{Result, ok, err, ◌>>=◌}
use prism_harness_py.Python.{Python}
use prism_harness_py.ThreadRows.Rows.{
  ToolCallInput, Request, Assistant, ResultEntry, Decision, ToolResult, Row, assistant, tool_result,
  other,
}

-- `_dicts`
abbrev pub dicts_in : Option Value → List Fields
dicts_in (some (arr vs)) = dicts (to_list vs)
dicts_in _ = []

-- `_nullable_text`
abbrev pub nullable_text : Option Value → Option String
nullable_text (some (str s)) = some s
nullable_text _ = none

abbrev pub dict_or_empty : Option Value → Fields
dict_or_empty (some (obj d)) = d
dict_or_empty _ = end

abbrev items_or_none : Option Value → Option Items
items_or_none (some (arr vs)) = some vs
items_or_none _ = none

abbrev items_or_empty : Option Value → Items
items_or_empty (some (arr vs)) = vs
items_or_empty _ = nil

abbrev text_or_empty : Option Value → String
text_or_empty (some (str s)) = s
text_or_empty _ = ""

abbrev is_true : Option Value → Bool
is_true (some (bool true)) = true
is_true _ = false

abbrev is_list_at : String → Fields → Bool
is_list_at key row = elim (get key row) [ none ↦ false | some v ↦ is_list v ]

-- `dict[key] = value` on the values of a dict, keyed by `id`: a new key goes last, and a key that is
-- there keeps its place.
module _ {A : Type 0} (id : A → String) where
  abbrev pub assign : A → List A → List A
  assign x [] = x ∷ []
  assign x (y ∷ ys) = if str_eq (id y) (id x) then x ∷ ys else y ∷ assign x ys

  abbrev pub assign_all : List A → List A → List A
  assign_all [] into = into
  assign_all (x ∷ xs) into = assign_all xs (assign x into)

-- `_fold`
unfoldable pub fold : (earlier later : ToolResult) → ToolResult
fold earlier later = record {
  results = assign_all (λ e. e.tool_call_id) (earlier.results ++ later.results) [];
  decisions = assign_all (λ d. d.approval_id) (earlier.decisions ++ later.decisions) [];
}

abbrev pub with_requests : List Request → Row → Row
with_requests more (assistant a) = assistant (record a { requests = a.requests ++ more })
with_requests more r = r

-- The last assistant row of the view gets the requests. The view is kept last row first.
abbrev pub request_last : List Request → List Row → List Row
request_last more [] = []
request_last more (assistant a ∷ rows) = with_requests more (assistant a) ∷ rows
request_last more (r ∷ rows) = r ∷ request_last more rows

-- The end of the loop's body: folded into the last row, or appended.
abbrev pub shown : Row → List Row → List Row
shown (tool_result later) (tool_result earlier ∷ rows) = tool_result (fold earlier later) ∷ rows
shown r rows = r ∷ rows

abbrev pub is_kind : Option Value → String → Bool
is_kind (some (str s)) kind = str_eq s kind
is_kind _ kind = false

abbrev pub reverse : List Row → List Row → List Row
reverse [] into = into
reverse (r ∷ rs) into = reverse rs (r ∷ into)

module _ ⦃py : Python⦄ where
  -- `_text`
  abbrev pub text_of : Option Value → String
  text_of none = ""
  text_of (some (str s)) = s
  text_of (some null) = ""
  text_of (some v) = py.json v

  abbrev pub call_of : Fields → ToolCallInput
  call_of d = record {
    id = text_of (get "id" d);
    name = text_of (get "name" d);
    arguments = dict_or_empty (get "arguments" d);
    result_id = nullable_text (get "result_id" d);
    reasoning_id = nullable_text (get "reasoning_id" d);
    reasoning_summary = items_or_none (get "reasoning_summary" d);
  }

  abbrev pub request_of : Fields → Request
  request_of d = record {
    approval_id = text_of (get "approval_id" d);
    tool_call_id = text_of (get "tool_call_id" d);
  }

  -- `_decision`
  abbrev pub decision_of : Fields → Decision
  decision_of d = record {
    approval_id = text_of (get "approval_id" d);
    approved = is_true (get "approved" d);
    reason = nullable_text (get "reason" d);
  }

  abbrev pub entry_of : Fields → ResultEntry
  entry_of d = record {
    tool_call_id = text_of (get "tool_call_id" d);
    tool_name = text_of (get "tool_name" d);
    args = dict_or_empty (get "args" d);
    result = text_of (get "result" d);
    tool_call_result_id = nullable_text (get "tool_call_result_id" d);
    artifacts = items_or_empty (get "artifacts" d);
  }

  abbrev pub read_assistant : Fields → Assistant
  read_assistant row = record {
    content = text_or_empty (get "content" row);
    tool_calls = map call_of (dicts_in (get "tool_calls" row));
    additional_content = dict_or_empty (get "additional_content" row);
    requests = map request_of (dicts_in (get "tool_approval_requests" row));
  }

  -- Version 0.1.0 wrote one row for each call, with no arguments on it.
  abbrev legacy_result : Fields → ToolResult
  legacy_result row = record {
    results =
        record {
          tool_call_id = text_of (get "tool_call_id" row);
          tool_name = text_of (get "name" row);
          args = end;
          result = text_of (get "result" row);
          tool_call_result_id = none;
          artifacts = nil;
        }
        ∷ [];
    decisions = [];
  }

  abbrev pub read_tool_result : Fields → ToolResult
  read_tool_result row =
      if is_list_at "tool_results" row || is_list_at "tool_approval_responses" row
      then record {
        results = map entry_of (dicts_in (get "tool_results" row));
        decisions = map decision_of (dicts_in (get "tool_approval_responses" row));
      }
      else legacy_result row

  abbrev pub legacy_request : Fields → Request
  legacy_request d = record {
    approval_id = text_of (get "id" d);
    tool_call_id = text_of (get "id" d);
  }

  -- A row of another type is shown as it is, if it has a type at all.
  abbrev shown_as_is : Option Value → Fields → List Row → Result (List Row)
  shown_as_is none row view = err (key_error "type")
  shown_as_is (some type) row view = ok (shown (other type row) view)

  -- `_normalise` and the loop's body, on the view with its last row first
  abbrev pub next_row : Fields → List Row → Result (List Row)
  next_row row view =
      let kind = get "type" row in
      if is_kind kind "assistant"
      then ok (shown (assistant (read_assistant row)) view)
      else if is_kind kind "tool_result"
      then ok (shown (tool_result (read_tool_result row)) view)
      else if is_kind kind "tool_approval_request"
      then ok (request_last (map legacy_request (dicts_in (get "approvals" row))) view)
      else if is_kind kind "tool_approval_response"
      then ok (shown (tool_result (record { results = []; decisions = decision_of row ∷ [] })) view)
      else shown_as_is kind row view

  unfoldable pub view_from : List Fields → List Row → Result (List Row)
  view_from [] view = ok view
  view_from (row ∷ rows) view = do next ← next_row row view; view_from rows next

  -- `thread_view`, last row first
  unfoldable pub recent_first : List Fields → Result (List Row)
  unfolding view_from
  recent_first rows = view_from rows []

  -- `thread_view`
  unfoldable pub thread_view : List Fields → Result (List Row)
  unfolding recent_first
  thread_view rows = do view ← recent_first rows; ok (reverse view [])
