-- ===== src/ThreadRows/Rows.antt =====
-- The rows: assistant turns with their calls and requests, and results with decisions, and the dicts
-- that `assistant_row`, `tool_result_entry` and `tool_result_row` write.
use prism_harness_py.Prelude.{String, Bool, Option, none, some, List, map}
use prism_harness_py.Value.{
  Value, null, bool, str, arr, obj, Items, nil, Fields, end, field, of_list,
}

pub record ToolCallInput : Type 0 where
  pub id : String
  pub name : String
  pub arguments : Fields
  pub result_id : Option String
  pub reasoning_id : Option String
  pub reasoning_summary : Option Items

pub record Request : Type 0 where
  pub approval_id : String
  pub tool_call_id : String

pub record Assistant : Type 0 where
  pub content : String
  pub tool_calls : List ToolCallInput
  pub additional_content : Fields
  pub requests : List Request

pub record ResultEntry : Type 0 where
  pub tool_call_id : String
  pub tool_name : String
  pub args : Fields
  pub result : String
  pub tool_call_result_id : Option String
  pub artifacts : Items

pub record Decision : Type 0 where
  pub approval_id : String
  pub approved : Bool
  pub reason : Option String

pub record ToolResult : Type 0 where
  pub results : List ResultEntry
  pub decisions : List Decision

-- A row of the view: one of the two that are built, or a stored row of another type as it is.
pub data Row : Type 0 where
  assistant : Assistant → Row
  tool_result : ToolResult → Row
  other : (type : Value) → Fields → Row

abbrev text_or_null : Option String → Value
text_or_null none = null
text_or_null (some s) = str s

abbrev items_or_null : Option Items → Value
items_or_null none = null
items_or_null (some vs) = arr vs

abbrev pub list_value : {A : Type 0} → (A → Fields) → List A → Value
list_value f xs = arr (of_list (map (λ x. obj (f x)) xs))

abbrev pub call_fields : ToolCallInput → Fields
call_fields c = field "id" (str c.id) (
    field "name" (str c.name) (
      field "arguments" (obj c.arguments) (
        field "result_id" (text_or_null c.result_id) (
          field "reasoning_id" (text_or_null c.reasoning_id)
            (field "reasoning_summary" (items_or_null c.reasoning_summary) end)))))

abbrev pub request_fields : Request → Fields
request_fields r =
    field "approval_id" (str r.approval_id) (field "tool_call_id" (str r.tool_call_id) end)

-- `assistant_row`
unfoldable pub assistant_row : Assistant → Fields
assistant_row a = field "type" (str "assistant") (
    field "content" (str a.content) (
      field "tool_calls" (list_value call_fields a.tool_calls) (
        field "additional_content" (obj a.additional_content)
          (field "tool_approval_requests" (list_value request_fields a.requests) end))))

abbrev pub entry_fields : ResultEntry → Fields
entry_fields e = field "tool_call_id" (str e.tool_call_id) (
    field "tool_name" (str e.tool_name) (
      field "args" (obj e.args) (
        field "result" (str e.result) (
          field "tool_call_result_id" (text_or_null e.tool_call_result_id)
            (field "artifacts" (arr e.artifacts) end)))))

-- `tool_result_entry`
unfoldable pub tool_result_entry : ToolCallInput → (result : String) → ResultEntry
tool_result_entry call result = record {
  tool_call_id = call.id;
  tool_name = call.name;
  args = call.arguments;
  result = result;
  tool_call_result_id = call.result_id;
  artifacts = nil;
}

abbrev pub decision_fields : Decision → Fields
decision_fields d =
    field "approval_id" (str d.approval_id)
      (field "approved" (bool d.approved) (field "reason" (text_or_null d.reason) end))

-- `tool_result_row`
unfoldable pub tool_result_row : ToolResult → Fields
tool_result_row t = field "type" (str "tool_result") (
    field "tool_results" (list_value entry_fields t.results)
      (field "tool_approval_responses" (list_value decision_fields t.decisions) end))

-- The dict of a row of the view.
abbrev pub row_fields : Row → Fields
row_fields (assistant a) = assistant_row a
row_fields (tool_result t) = tool_result_row t
row_fields (other _ d) = d
