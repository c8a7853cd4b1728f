-- ===== src/Runtime/Once.antt =====
-- A turn that waited is answered once: after its answers are recorded nothing of it waits.
use prism_harness_py.Runtime.Responses.{is_empty}
use prism_harness_py.Prelude.{
  String, true, false, ◌||◌, Option, none, some, List, [], ◌∷◌, ◌++◌, map, All, ◌≡◌, inl, inr, refl,
  sym, ap, ◌∙◌, arith, Bool-cases, str_eq, eq_iff,
}
use prism_harness_py.Value.{Fields}
use prism_harness_py.Python.{Python}
use prism_harness_py.Result.{Result, ok, err, Result-cases, ◌>>=◌}
use prism_harness_py.ThreadRows.Rows.{
  ToolCallInput, Request, Assistant, ResultEntry, ToolResult, Row, assistant, tool_result, other,
  tool_result_row,
}
use prism_harness_py.ThreadRows.View.{
  recent_first, view_from, next_row, shown, fold, assign, assign_all,
}
use prism_harness_py.ThreadRows.Reading.{read_tool_result-tool_result_row}
use prism_harness_py.Runtime.Data.{HarnessTool, AgentMode, Machine, Outside}
use prism_harness_py.Runtime.Resolving.{
  Work, asking_turn, results_in, has_result, waits, waiting_calls, work_unless_empty, work_in,
  unresolved_in, unresolved, answers_row, answer_calls,
}
use prism_harness_py.Runtime.Answering.{answer_calls-ids}

has-assign :
    (e : ResultEntry) (into : List ResultEntry) (id : String)
    → has_result (assign (λ r. r.tool_call_id) e into) id
      ≡ (str_eq e.tool_call_id id || has_result into id)
has-assign e [] id = refl
has-assign e (f ∷ into) id = ground (
  arith,
  has-assign e into id,
  eq_iff f.tool_call_id e.tool_call_id,
  eq_iff e.tool_call_id id,
  eq_iff f.tool_call_id id,
)

-- Keyed by their ids, results keep the ids that there are.
has-assign_all :
    (entries into : List ResultEntry) (id : String)
    → has_result (assign_all (λ r. r.tool_call_id) entries into) id
      ≡ (has_result entries id || has_result into id)
has-assign_all [] into id = refl
has-assign_all (e ∷ entries) into id =
    has-assign_all entries (assign (λ r. r.tool_call_id) e into) id
    ∙ ground (arith, has-assign e into id)

has-append :
    (xs ys : List ResultEntry) (id : String)
    → has_result (xs ++ ys) id ≡ (has_result xs id || has_result ys id)
has-append [] ys id = refl
has-append (x ∷ xs) ys id = ground (arith, has-append xs ys id)

abbrev HasAll : List ResultEntry → List ToolCallInput → Type 0
HasAll results = All (λ call. has_result results call.id ≡ true)

HasAll-cons :
    (e : ResultEntry) (results : List ResultEntry) (calls : List ToolCallInput)
    → HasAll results calls
    → HasAll (e ∷ results) calls
HasAll-cons e results [] h = tt
HasAll-cons e results (call ∷ calls) (first, rest) =
    (ground (arith, first), HasAll-cons e results calls rest)

ids-HasAll :
    (results : List ResultEntry) (calls : List ToolCallInput)
    → map (λ e. e.tool_call_id) results ≡ map (λ c. c.id) calls
    → HasAll results calls
ids-HasAll results [] h = tt
ids-HasAll [] (call ∷ calls) h = cc
ids-HasAll (e ∷ results) (call ∷ calls) h =
    let same : e.tool_call_id ≡ call.id = cc in
    let rest : map (λ r. r.tool_call_id) results ≡ map (λ c. c.id) calls = cc in
    (
      ground (arith, eq_iff e.tool_call_id call.id),
      HasAll-cons e results calls (ids-HasAll results calls rest),
    )

stays_settled :
    (mode : AgentMode) (requests : List Request) (before after : List ResultEntry)
    (call : ToolCallInput)
    → ((id : String) → has_result before id ≡ true → has_result after id ≡ true)
    → waits mode requests before call ≡ false
    → waits mode requests after call ≡ false
stays_settled mode requests before after call kept settled =
    elim (Bool-cases (has_result before call.id)) [
      | inl there ↦ rw (kept call.id there, waits) refl
      | inr not_there ↦ ground (arith, rw (not_there, waits) at settled)
    ]

-- Every call that waited has a result among the new ones, so none waits.
none_waits :
    (mode : AgentMode) (requests : List Request) (before after : List ResultEntry)
    (calls : List ToolCallInput)
    → ((id : String) → has_result before id ≡ true → has_result after id ≡ true)
    → HasAll after (waiting_calls mode requests before calls)
    → waiting_calls mode requests after calls ≡ []
none_waits mode requests before after [] kept all = refl
none_waits mode requests before after (call ∷ calls) kept all =
    elim (Bool-cases (waits mode requests before call)) [
      | inl waited ↦
          let both : HasAll after (call ∷ waiting_calls mode requests before calls) =
            rw (waited, waiting_calls) at all in
          let done : waits mode requests after call ≡ false = rw (both.0, waits) refl in
          rw (done, waiting_calls) (none_waits mode requests before after calls kept both.1)
      | inr settled ↦
          let done = stays_settled mode requests before after call kept settled in
          rw (done, waiting_calls)
            (none_waits mode requests before after calls kept (rw (settled, waiting_calls) at all))
    ]

-- A turn that waits, in a view with its last row first: nothing came after it, or one tool result.
abbrev pub IsLast : List Row → Type 0
IsLast (assistant a ∷ rest) = is_empty a.tool_calls ≡ false
IsLast (tool_result t ∷ (assistant a ∷ rest)) = is_empty a.tool_calls ≡ false
IsLast _ = ⊥

results_kept :
    (work : Work) (answers earlier : List ResultEntry) (id : String)
    → has_result (assign_all (λ e. e.tool_call_id) (earlier ++ (work.results ++ answers)) []) id
      ≡ (has_result earlier id || (has_result work.results id || has_result answers id))
results_kept work answers earlier id =
    has-assign_all (earlier ++ (work.results ++ answers)) [] id
    ∙ ground
        (arith, has-append earlier (work.results ++ answers) id, has-append work.results answers id)

ok_after : {A : Type 0} (r : Result A) → (r >>= λ a. ok a) ≡ r
ok_after (ok a) = refl
ok_after (err e) = refl

view_from-append :
    ⦃py : Python⦄ (rows : List Fields) (last : Fields) (view next : List Row)
    → view_from rows view ≡ ok next
    → view_from (rows ++ (last ∷ [])) view ≡ next_row last next
unfolding view_from
view_from-append [] last view next h =
    let same : view ≡ next = cc in rw same (ok_after (next_row last next))
view_from-append (row ∷ rows) last view next h = elim (Result-cases (next_row row view)) [
  | inr (e, refused) ↦ cc (rw refused at h)
  | inl (shown_next, is) ↦ rw is (view_from-append rows last shown_next next (rw is at h))
]

HasAll-more :
    (fewer more : List ResultEntry) (calls : List ToolCallInput)
    → ((id : String) → has_result fewer id ≡ true → has_result more id ≡ true)
    → HasAll fewer calls
    → HasAll more calls
HasAll-more fewer more [] kept h = tt
HasAll-more fewer more (call ∷ calls) kept (first, rest) =
    (kept call.id first, HasAll-more fewer more calls kept rest)

some_work : (w v : Work) → work_unless_empty w ≡ some v → w ≡ v
some_work w v h = elim (Bool-cases (is_empty w.calls)) [
  | inl is ↦ cc (rw (is, work_unless_empty) at h)
  | inr there ↦ cc (rw (there, work_unless_empty) at h)
]

-- A result that holds what the turn had and an answer for every call that waited leaves no work.
work-none :
    (mode : AgentMode) (a : Assistant) (before : Option ToolResult) (after : ToolResult)
    (work : Work) (answers earlier : List ResultEntry)
    → work_in mode (some (a, before)) ≡ some work
    → ((id : String)
        → has_result after.results id
          ≡ (has_result earlier id || (has_result work.results id || has_result answers id)))
    → map (λ e. e.tool_call_id) answers ≡ map (λ c. c.id) work.calls
    → work_in mode (some (a, some after)) ≡ none
work-none mode a before after work answers earlier h has ids =
    let same = some_work _ work h in
    let now = results_in (some after) in
    let all : (id : String)
        → has_result now id
          ≡ (has_result earlier id || (has_result work.results id || has_result answers id)) =
      λ id. has-assign_all after.results [] id ∙ ground (arith, has id) in
    let answered =
      HasAll-more answers now work.calls (λ id there. ground (arith, all id))
        (ids-HasAll answers work.calls ids) in
    let calls : work.calls ≡ waiting_calls mode a.requests (results_in before) a.tool_calls =
      ap (λ w. w.calls) (sym same) in
    let results : results_in before ≡ work.results = ap (λ w. w.results) same in
    let waiting : HasAll now (waiting_calls mode a.requests (results_in before) a.tool_calls) =
      rw (← calls) answered in
    let kept : (id : String) → has_result (results_in before) id ≡ true → has_result now id ≡ true =
      λ id there. ground (arith, all id, rw results at there) in
    rw (none_waits mode a.requests (results_in before) now a.tool_calls kept waiting) refl

next-answers :
    ⦃py : Python⦄ (t : ToolResult) (view : List Row)
    → next_row (tool_result_row t) view ≡ ok (shown (tool_result t) view)
unfolding tool_result_row
next-answers t view = rw (read_tool_result-tool_result_row t) refl

work-answered :
    (mode : AgentMode) (view : List Row) (work : Work) (t : ToolResult) (answers : List ResultEntry)
    → IsLast view
    → t.results ≡ work.results ++ answers
    → work_in mode (asking_turn view none) ≡ some work
    → map (λ e. e.tool_call_id) answers ≡ map (λ c. c.id) work.calls
    → work_in mode (asking_turn (shown (tool_result t) view) none) ≡ none
unfolding fold
work-answered mode [] work t answers last is h ids = elim last [ ]
work-answered mode (other type d ∷ view) work t answers last is h ids = elim last [ ]
work-answered mode (assistant a ∷ view) work t answers last is h ids =
    rw (last, asking_turn)
      (work-none mode a none t work answers [] (rw (last, asking_turn) at h)
        (λ id. rw is (has-append work.results answers id)) ids)
work-answered mode (tool_result u ∷ []) work t answers last is h ids = elim last [ ]
work-answered mode (tool_result u ∷ (tool_result v ∷ view)) work t answers last is h ids =
    elim last [ ]
work-answered mode (tool_result u ∷ (other type d ∷ view)) work t answers last is h ids =
    elim last [ ]
work-answered mode (tool_result u ∷ (assistant a ∷ view)) work t answers last is h ids =
    rw (last, asking_turn)
      (work-none mode a (some u) (fold u t) work answers u.results (rw (last, asking_turn) at h)
        (λ id. rw is (results_kept work answers u.results id)) ids)

-- The answers to a turn, recorded after the rows that it was found in, leave nothing of it to do: so
-- a call that was answered is not run again, whatever its decision says and whoever resumes the
-- session. The turn's calls were answered without an exception, and in the stored rows nothing came
-- after it but one tool result at most.
pub unresolved-answered :
    ⦃py : Python⦄ (out : Outside) (mode : AgentMode) (bounded : List HarnessTool)
    (rows : List Fields) (view : List Row) (work : Work) (m n : Machine)
    (answered : List String × List ResultEntry)
    → recent_first rows ≡ ok view
    → IsLast view
    → unresolved mode rows ≡ ok (some work)
    → answer_calls out bounded work work.calls m ≡ (ok answered, n)
    → unresolved mode (rows ++ (answers_row work answered.1 ∷ [])) ≡ ok none
unfolding unresolved recent_first
unresolved-answered out mode bounded rows view work m n answered shown_as last found ran =
    let t : ToolResult = record {
      results = work.results ++ answered.1;
      decisions = work.decisions;
    } in
    let next = view_from-append rows (tool_result_row t) [] view shown_as ∙ next-answers t view in
    let ids = answer_calls-ids out bounded work work.calls m n answered ran in
    let work_is : work_in mode (asking_turn view none) ≡ some work = cc (rw shown_as at found) in
    ap (unresolved_in mode) next
    ∙ ap ok (work-answered mode view work t answered.1 last refl work_is ids)
