-- ===== src/ThreadRows/Scope.antt =====
-- `approval_tool_scope`: the tools that a stopped run may use when it goes on, from what is stored.
use prism_harness_py.Prelude.{
  String, Bool, true, false, ◌&&◌, ◌||◌, not, Option, none, some, List, [], ◌∷◌, any, all, length,
  ◌==◌, if◌then◌else◌, str_eq,
}
use prism_harness_py.Value.{Value, str, arr, obj, Fields, get, to_list}
use prism_harness_py.Result.{Result, ok, ◌>>=◌}
use prism_harness_py.Python.{Python}
use prism_harness_py.ThreadRows.Rows.{
  ToolCallInput, Request, Assistant, Decision, Row, assistant, tool_result, other,
}
use prism_harness_py.ThreadRows.View.{recent_first, is_kind}

abbrev pub is_elem : String → List String → Bool
is_elem s = any (str_eq s)

-- `name not in ("", "*")`
abbrev pub is_tool_name : String → Bool
is_tool_name s = not (str_eq s "" || str_eq s "*")

abbrev pub without : String → List String → List String
without s [] = []
without s (t ∷ ts) = let rest = without s ts in if str_eq t s then rest else t ∷ rest

-- `list(dict.fromkeys(names))`
abbrev pub unique : List String → List String
unique [] = []
unique (s ∷ ss) = s ∷ without s (unique ss)

-- A list of tool names and nothing else.
abbrev pub tool_names : List Value → Option (List String)
tool_names [] = some []
tool_names (str s ∷ vs) =
    let rest = tool_names vs in
    if is_tool_name s then elim rest [ none ↦ none | some ss ↦ some (s ∷ ss) ] else none
tool_names _ = none

abbrev pub stored_names : Option Value → Option (List String)
stored_names (some (arr vs)) = tool_names (to_list vs)
stored_names _ = none

abbrev known_id : List Request → Option Value → Bool
known_id requests (some (str id)) = any (λ r. str_eq r.approval_id id) requests
known_id requests _ = false

abbrev known_request : List Request → Value → Bool
known_request requests (obj d) = known_id requests (get "approval_id" d)
known_request requests _ = false

abbrev same_requests : List Request → Option Value → Bool
same_requests requests (some (arr vs)) =
    length (to_list vs) == length requests && all (known_request requests) (to_list vs)
same_requests requests _ = false

-- The stored row of the turn that asked.
abbrev pub is_asking : List Request → Fields → Bool
is_asking requests row =
    is_kind (get "type" row) "assistant"
    && same_requests requests (get "tool_approval_requests" row)

abbrev pub find_row : (Fields → Bool) → List Fields → Option Fields
find_row p [] = none
find_row p (row ∷ rows) =
    let later = find_row p rows in
    elim later [ some r ↦ some r | none ↦ if p row then some row else none ]

abbrev pub scope_in : Option Fields → Option (List String)
scope_in none = none
scope_in (some row) = stored_names (get "harness_tool_names" row)

-- `decisions.setdefault(approval_id, approved)`
abbrev pub decision_for : String → List Decision → Option Bool
decision_for id [] = none
decision_for id (d ∷ ds) = if str_eq d.approval_id id then some d.approved else decision_for id ds

abbrev pub is_granted : List Decision → String → Bool
is_granted ds id = elim (decision_for id ds) [ none ↦ false | some b ↦ b ]

-- A call is approved where a request for it is.
abbrev pub is_approved : List Request → List Decision → ToolCallInput → Bool
is_approved requests ds call =
    any (λ r. is_granted ds r.approval_id && str_eq r.tool_call_id call.id) requests

abbrev pub approved_names : List Request → List Decision → List ToolCallInput → List String
approved_names requests ds [] = []
approved_names requests ds (c ∷ cs) =
    let rest = approved_names requests ds cs in
    if is_approved requests ds c && is_tool_name c.name then c.name ∷ rest else rest

-- What the asking turn left: the scope it stored, or the approved calls' names.
abbrev pub scope_of : List Fields → Assistant → List Decision → List String × Bool
scope_of rows a ds = elim (scope_in (find_row (is_asking a.requests) rows)) [
  | some names ↦ (unique names, false)
  | none ↦ (unique (approved_names a.requests ds a.tool_calls), true)
]

abbrev pub append_decisions : List Decision → List Decision → List Decision
append_decisions [] more = more
append_decisions (d ∷ ds) more = d ∷ append_decisions ds more

abbrev pub is_user : Value → Bool
is_user (str s) = str_eq s "user"
is_user _ = false

-- A turn that asked for nothing leaves no scope.
abbrev pub turn_scope :
    (rows : List Fields) (a : Assistant) (ds : List Decision)
    → List Request
    → Option (List String × Bool)
turn_scope rows a ds [] = none
turn_scope rows a ds _ = some (scope_of rows a ds)

-- The loop over the reversed view. A decision that was noted first stands.
unfoldable pub scope_from :
    (rows : List Fields) → List Row → List Decision → Option (List String × Bool)
scope_from rows [] ds = none
scope_from rows (tool_result t ∷ view) ds = scope_from rows view (append_decisions ds t.decisions)
scope_from rows (other type d ∷ view) ds =
    let rest = scope_from rows view ds in if is_user type then none else rest
scope_from rows (assistant a ∷ view) ds = turn_scope rows a ds a.requests

-- `approval_tool_scope`
unfoldable pub approval_tool_scope :
    ⦃py : Python⦄ → List Fields → Result (Option (List String × Bool))
unfolding scope_from
approval_tool_scope rows = do view ← recent_first rows; ok (scope_from rows view [])
