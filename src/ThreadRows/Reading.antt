-- ===== src/ThreadRows/Reading.antt =====
-- Rows that are written read back.
use prism_harness_py.Prelude.{◌++◌, false, some, List, [], ◌∷◌, map, ◌≡◌, refl, ap, ◌∙◌, arith}
use prism_harness_py.Value.{Value, Fields, get}
use prism_harness_py.Result.{ok, ◌>>=◌}
use prism_harness_py.Python.{Python}
use prism_harness_py.ThreadRows.Rows.{
  ToolCallInput, Request, Assistant, ResultEntry, Decision, ToolResult, Row, assistant, tool_result,
  other, list_value, call_fields, request_fields, entry_fields, decision_fields, assistant_row,
  tool_result_row, row_fields,
}
use prism_harness_py.ThreadRows.View.{
  dicts_in, call_of, request_of, decision_of, entry_of, read_assistant, read_tool_result, shown,
  is_kind, next_row, view_from, reverse, recent_first, thread_view,
}

-- A list that is written by one function and read by its inverse.
read_list :
    {A : Type 0} (write : A → Fields) (read : Fields → A)
    → ((a : A) → read (write a) ≡ a)
    → (xs : List A) → map read (dicts_in (some (list_value write xs))) ≡ xs
read_list write read back [] = refl
read_list write read back (x ∷ xs) = cc (back x, read_list write read back xs)

module _ ⦃py : Python⦄ where
  call_of-call_fields : (c : ToolCallInput) → call_of (call_fields c) ≡ c
  call_of-call_fields c = ground arith

  request_of-request_fields : (r : Request) → request_of (request_fields r) ≡ r
  request_of-request_fields r = refl

  entry_of-entry_fields : (e : ResultEntry) → entry_of (entry_fields e) ≡ e
  entry_of-entry_fields e = ground arith

  decision_of-decision_fields : (d : Decision) → decision_of (decision_fields d) ≡ d
  decision_of-decision_fields d = ground arith

  read_assistant-assistant_row : (a : Assistant) → read_assistant (assistant_row a) ≡ a
  unfolding assistant_row
  read_assistant-assistant_row a =
      let calls = read_list call_fields call_of call_of-call_fields a.tool_calls in
      let requests = read_list request_fields request_of request_of-request_fields a.requests in
      cc (calls, requests)

  pub read_tool_result-tool_result_row : (t : ToolResult) → read_tool_result (tool_result_row t) ≡ t
  unfolding tool_result_row
  read_tool_result-tool_result_row t =
      let results = read_list entry_fields entry_of entry_of-entry_fields t.results in
      let decisions =
        read_list decision_fields decision_of decision_of-decision_fields t.decisions in
      cc (results, decisions)

-- A row that a view can hold: of another type than the four that are read.
abbrev IsOther : Value → Fields → Type 0
IsOther type d =
    (get "type" d ≡ some type)
    × (is_kind (some type) "assistant" ≡ false)
    × (is_kind (some type) "tool_result" ≡ false)
    × (is_kind (some type) "tool_approval_request" ≡ false)
    × (is_kind (some type) "tool_approval_response" ≡ false)

abbrev pub IsRow : Row → Type 0
IsRow (other type d) = IsOther type d
IsRow _ = Unit

-- Of two rows that follow each other one is no tool result.
abbrev Follows : Row → List Row → Type 0
Follows (tool_result t) (tool_result u ∷ rows) = ⊥
Follows _ _ = Unit

-- Rows with nothing left to fold.
abbrev pub IsSettled : List Row → Type 0
IsSettled [] = Unit
IsSettled (r ∷ rows) = IsRow r × Follows r rows × IsSettled rows

shown-Follows :
    (t : ToolResult) (view : List Row)
    → Follows (tool_result t) view
    → shown (tool_result t) view ≡ tool_result t ∷ view
shown-Follows t [] f = refl
shown-Follows t (assistant a ∷ rows) f = refl
shown-Follows t (tool_result u ∷ rows) f = elim f [ ]
shown-Follows t (other type d ∷ rows) f = refl

module _ ⦃py : Python⦄ where
  next_row-row_fields :
      (r : Row) (view : List Row)
      → IsRow r
      → Follows r view
      → next_row (row_fields r) view ≡ ok (r ∷ view)
  unfolding assistant_row tool_result_row
  next_row-row_fields (assistant a) view v f = rw (read_assistant-assistant_row a) refl
  next_row-row_fields (tool_result t) view v f =
      rw (read_tool_result-tool_result_row t) (ap ok (shown-Follows t view f))
  next_row-row_fields (other type d) view (has, no1, no2, no3, no4) f =
      rw (has, no1, no2, no3, no4) refl

Follows-sym : (r s : Row) (rest view : List Row) → Follows r (s ∷ rest) → Follows s (r ∷ view)
Follows-sym (tool_result t) (tool_result u) rest view f = elim f [ ]
Follows-sym (tool_result t) (assistant a) rest view f = tt
Follows-sym (tool_result t) (other k d) rest view f = tt
Follows-sym (assistant b) (tool_result u) rest view f = tt
Follows-sym (assistant b) (assistant a) rest view f = tt
Follows-sym (assistant b) (other k d) rest view f = tt
Follows-sym (other l e) (tool_result u) rest view f = tt
Follows-sym (other l e) (assistant a) rest view f = tt
Follows-sym (other l e) (other k d) rest view f = tt

Follows-nil : (r : Row) → Follows r []
Follows-nil (tool_result t) = tt
Follows-nil (assistant a) = tt
Follows-nil (other k d) = tt

-- The first of the rows may stand behind the view.
abbrev Joins : List Row → List Row → Type 0
Joins [] view = Unit
Joins (r ∷ rows) view = Follows r view

Joins-nil : (rows : List Row) → Joins rows []
Joins-nil [] = tt
Joins-nil (r ∷ rows) = Follows-nil r

Joins-next : (r : Row) (rows view : List Row) → Follows r rows → Joins rows (r ∷ view)
Joins-next r [] view f = tt
Joins-next r (s ∷ rows) view f = Follows-sym r s rows view f

reverse-reverse : (xs ys zs : List Row) → reverse (reverse xs ys) zs ≡ reverse ys (xs ++ zs)
reverse-reverse [] ys zs = refl
reverse-reverse (x ∷ xs) ys zs = reverse-reverse xs (x ∷ ys) zs

append_nil : (xs : List Row) → xs ++ [] ≡ xs
append_nil [] = refl
append_nil (x ∷ xs) = ap (λ ys. x ∷ ys) (append_nil xs)

module _ ⦃py : Python⦄ where
  view_from-written :
      (rows view : List Row)
      → IsSettled rows
      → Joins rows view
      → view_from (map row_fields rows) view ≡ ok (reverse rows view)
  unfolding view_from
  view_from-written [] view s j = refl
  view_from-written (r ∷ rows) view (v, f, s) j =
      ap (λ m. m >>= view_from (map row_fields rows)) (next_row-row_fields r view v j)
      ∙ view_from-written rows (r ∷ view) s (Joins-next r rows view f)

  -- Rows written to a thread are viewed as they were written, assistant and tool result rows with
  -- every call, request, result and decision, and rows of another type whole, all in order, where no
  -- two tool results stand side by side.
  pub thread_view-written :
      (rows : List Row) → IsSettled rows → thread_view (map row_fields rows) ≡ ok rows
  unfolding thread_view recent_first
  thread_view-written rows s =
      let is = view_from-written rows [] s (Joins-nil rows) in
      let back = reverse-reverse rows [] [] ∙ append_nil rows in rw (is, back) refl
