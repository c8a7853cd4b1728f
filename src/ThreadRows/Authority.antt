-- ===== src/ThreadRows/Authority.antt =====
-- The tools of a stopped run are named one by one: no wildcard stands among them.
use prism_harness_py.Prelude.{
  String, Bool, true, Option, none, some, List, [], ◌∷◌, All, ◌≡◌, inl, inr, Bool-cases,
  Option-cases, str_eq,
}
use prism_harness_py.Value.{Value, null, bool, int, float, str, arr, obj, Fields, get, to_list}
use prism_harness_py.Python.{Python}
use prism_harness_py.Result.{ok, Result-cases}
use prism_harness_py.ThreadRows.Rows.{
  ToolCallInput, Request, Assistant, Decision, Row, assistant, tool_result, other,
}
use prism_harness_py.ThreadRows.View.{recent_first}
use prism_harness_py.ThreadRows.Scope.{
  is_tool_name, without, unique, tool_names, stored_names, approved_names, is_approved, scope_in,
  scope_of, turn_scope, scope_from, append_decisions, is_user, find_row, is_asking,
  approval_tool_scope,
}

abbrev AreNames : List String → Type 0
AreNames = All (λ s. is_tool_name s ≡ true)

without-AreNames : (s : String) (ss : List String) → AreNames ss → AreNames (without s ss)
without-AreNames s [] h = tt
without-AreNames s (t ∷ ss) (first, rest) = elim (Bool-cases (str_eq t s)) [
  | inl is ↦ rw (is, without) (without-AreNames s ss rest)
  | inr other_one ↦ rw (other_one, without) (first, without-AreNames s ss rest)
]

unique-AreNames : (ss : List String) → AreNames ss → AreNames (unique ss)
unique-AreNames [] h = tt
unique-AreNames (s ∷ ss) (first, rest) =
    (first, without-AreNames s (unique ss) (unique-AreNames ss rest))

approved-AreNames :
    (requests : List Request) (ds : List Decision) (calls : List ToolCallInput)
    → AreNames (approved_names requests ds calls)
approved-AreNames requests ds [] = tt
approved-AreNames requests ds (c ∷ calls) = elim (Bool-cases (is_tool_name c.name)) [
  | inl is ↦ elim (Bool-cases (is_approved requests ds c)) [
    | inl yes_it_is ↦ rw (yes_it_is, is, approved_names) (is, approved-AreNames requests ds calls)
    | inr not_it ↦ rw (not_it, approved_names) (approved-AreNames requests ds calls)
  ]
  | inr is ↦ elim (Bool-cases (is_approved requests ds c)) [
    | inl yes_it_is ↦ rw (yes_it_is, is, approved_names) (approved-AreNames requests ds calls)
    | inr not_it ↦ rw (not_it, approved_names) (approved-AreNames requests ds calls)
  ]
]

tool_names-AreNames : (vs : List Value) (ss : List String) → tool_names vs ≡ some ss → AreNames ss
tool_names-AreNames [] ss h = let same : [] ≡ ss = cc in rw (← same) tt
tool_names-AreNames (str s ∷ vs) ss h = elim (Bool-cases (is_tool_name s)) [
  | inr bad ↦ cc (rw (bad, tool_names) at h)
  | inl is ↦ elim (Option-cases (tool_names vs)) [
    | inl no_rest ↦ cc (rw (is, no_rest, tool_names) at h)
    | inr (rest, has) ↦
        let same : s ∷ rest ≡ ss = cc (rw (is, has, tool_names) at h) in
        rw (← same) (is, tool_names-AreNames vs rest has)
  ]
]
tool_names-AreNames (null ∷ vs) ss h = cc
tool_names-AreNames (bool b ∷ vs) ss h = cc
tool_names-AreNames (int n ∷ vs) ss h = cc
tool_names-AreNames (float n ∷ vs) ss h = cc
tool_names-AreNames (arr a ∷ vs) ss h = cc
tool_names-AreNames (obj d ∷ vs) ss h = cc

stored-AreNames : (o : Option Value) (ss : List String) → stored_names o ≡ some ss → AreNames ss
stored-AreNames none ss h = cc
stored-AreNames (some (arr vs)) ss h = tool_names-AreNames (to_list vs) ss h
stored-AreNames (some null) ss h = cc
stored-AreNames (some (bool b)) ss h = cc
stored-AreNames (some (int n)) ss h = cc
stored-AreNames (some (float n)) ss h = cc
stored-AreNames (some (str s)) ss h = cc
stored-AreNames (some (obj d)) ss h = cc

scope_in-AreNames : (row : Option Fields) (ss : List String) → scope_in row ≡ some ss → AreNames ss
scope_in-AreNames none ss h = cc
scope_in-AreNames (some row) ss h = stored-AreNames (get "harness_tool_names" row) ss h

scope_of-AreNames :
    (rows : List Fields) (a : Assistant) (ds : List Decision) → AreNames (scope_of rows a ds).0
scope_of-AreNames rows a ds =
    elim (Option-cases (scope_in (find_row (is_asking a.requests) rows))) [
      | inl none_stored ↦
          rw (none_stored, scope_of)
            (unique-AreNames _ (approved-AreNames a.requests ds a.tool_calls))
      | inr (names, is) ↦
          rw (is, scope_of)
            (unique-AreNames names
              (scope_in-AreNames (find_row (is_asking a.requests) rows) names is))
    ]

asking :
    (rows : List Fields) (a : Assistant) (ds : List Decision) (requests : List Request)
    (names : List String) (legacy : Bool)
    → turn_scope rows a ds requests ≡ some (names, legacy)
    → AreNames names
asking rows a ds [] names legacy h = cc
asking rows a ds (r ∷ requests) names legacy h =
    let same : (scope_of rows a ds).0 ≡ names = cc in rw (← same) (scope_of-AreNames rows a ds)

scope_from-AreNames :
    (rows : List Fields) (view : List Row) (ds : List Decision) (names : List String)
    (legacy : Bool)
    → scope_from rows view ds ≡ some (names, legacy)
    → AreNames names
unfolding scope_from
scope_from-AreNames rows [] ds names legacy h = cc
scope_from-AreNames rows (tool_result t ∷ view) ds names legacy h =
    scope_from-AreNames rows view (append_decisions ds t.decisions) names legacy h
scope_from-AreNames rows (other type d ∷ view) ds names legacy h =
    elim (Bool-cases (is_user type)) [
      | inl user ↦ cc (rw (user, scope_from) at h)
      | inr other_type ↦
          scope_from-AreNames rows view ds names legacy (rw (other_type, scope_from) at h)
    ]
scope_from-AreNames rows (assistant a ∷ view) ds names legacy h =
    asking rows a ds a.requests names legacy h

-- The tools that a stopped run may use when it goes on are named one by one: neither the wildcard nor
-- an empty name is among them, whatever was stored for the turn.
pub approval_tool_scope-AreNames :
    ⦃py : Python⦄ (rows : List Fields) (names : List String) (legacy : Bool)
    → approval_tool_scope rows ≡ ok (some (names, legacy))
    → All (λ s. is_tool_name s ≡ true) names
unfolding approval_tool_scope
approval_tool_scope-AreNames rows names legacy h = elim (Result-cases (recent_first rows)) [
  | inr (e, refused) ↦ cc (rw refused at h)
  | inl (view, is) ↦ scope_from-AreNames rows view [] names legacy (cc (rw is at h))
]
