-- ===== src/Runtime/Answering.antt =====
-- Every waiting call is answered under its own id, whatever it comes to.
use prism_harness_py.Prelude.{
  String, Option, none, some, List, [], ◌∷◌, ◌++◌, map, ◌≡◌, inl, inr, refl, ap, Bool-cases,
  Option-cases,
}
use prism_harness_py.Python.{Python}
use prism_harness_py.Result.{Result, ok, err}
use prism_harness_py.Exec.{first_returned, Exec, pure, ◌>>=◌}
use prism_harness_py.ThreadRows.Rows.{tool_result_entry, ToolCallInput, ResultEntry, Decision}
use prism_harness_py.Runtime.Data.{HarnessTool, Machine, Outside}
use prism_harness_py.Runtime.Steps.{invoke, find_tool, tool_outcome, is_refusal}
use prism_harness_py.Runtime.Resolving.{
  approved_call, Work, answer_call, answer_calls, run_approved, remade, decided, refused_call,
}

-- A call that returns an entry returns one for its own call.
abbrev pub Answers : ToolCallInput → Exec Machine ResultEntry → Type 0
Answers call f =
    (m n : Machine) (entry : ResultEntry) → f m ≡ (ok entry, n) → entry.tool_call_id ≡ call.id

joined :
    (first : List String × ResultEntry) (rest answered : List String × List ResultEntry)
    (m n : Machine)
    → pure (first.0 ++ rest.0, first.1 ∷ rest.1) m ≡ (ok answered, n)
    → first.1 ∷ rest.1 ≡ answered.1
joined first rest answered m n h = cc

module _ ⦃py : Python⦄ (out : Outside) (offered : List HarnessTool) where
  tool_outcome-id :
      (call : ToolCallInput) (r : Result _) (entry : ResultEntry)
      → tool_outcome out call r ≡ ok entry
      → entry.tool_call_id ≡ call.id
  unfolding tool_result_entry
  tool_outcome-id call (ok v) entry h = cc
  tool_outcome-id call (err e) entry h = elim (Bool-cases (is_refusal e)) [
    | inl refused ↦ cc (rw (refused, tool_outcome) at h)
    | inr failed ↦ cc (rw (failed, tool_outcome) at h)
  ]

  invoke-Answers : (call : ToolCallInput) → Answers call (invoke out offered call)
  unfolding invoke
  invoke-Answers call m n entry h = elim (Option-cases (find_tool offered call.name)) [
    | inl no_tool ↦ cc (rw (no_tool, invoke) at h)
    | inr (tool, is) ↦
        tool_outcome-id call (out.handle tool call.arguments m).0 entry
          (ap (λ p. p.0) (rw (is, invoke) at h))
  ]

  refused_call-id :
      (call : ToolCallInput) (r : Result ResultEntry) (entry : ResultEntry)
      → ((e : ResultEntry) → r ≡ ok e → e.tool_call_id ≡ call.id)
      → refused_call call r ≡ ok entry
      → entry.tool_call_id ≡ call.id
  unfolding tool_result_entry
  refused_call-id call (ok e) entry k h = k entry h
  refused_call-id call (err e) entry k h = elim (Bool-cases (is_refusal e)) [
    | inl refused ↦ cc (rw (refused, refused_call) at h)
    | inr failed ↦ cc (rw (failed, refused_call) at h)
  ]

  run_approved-Answers : (call : ToolCallInput) → Answers call (run_approved out offered call)
  unfolding run_approved tool_result_entry
  run_approved-Answers call m n entry h = elim (Option-cases (find_tool offered call.name)) [
    | inl no_tool ↦ cc (rw (no_tool, run_approved) at h)
    | inr (tool, is) ↦
        refused_call-id call (invoke out offered call m).0 entry
          (λ e was.
            invoke-Answers call m (invoke out offered call m).1 e
              (ap (λ r. (r, (invoke out offered call m).1)) was))
          (ap (λ p. p.0) (rw (is, run_approved) at h))
  ]

  approved-id :
      (call : ToolCallInput) (m n : Machine) (first : List String × ResultEntry)
      → approved_call out offered call m ≡ (ok first, n)
      → first.1.tool_call_id ≡ call.id
  approved-id call m n first h =
      let (entry, o, is, rest) =
        first_returned (run_approved out offered (remade call)) (λ e. pure (call.name ∷ [], e)) m n
          first h in
      let same : entry ≡ first.1 = cc rest in
      rw (← same) (run_approved-Answers (remade call) m o entry is)

  answer_call-id :
      (call : ToolCallInput) (d : Option Decision) (m n : Machine)
      (first : List String × ResultEntry)
      → answer_call out offered call d m ≡ (ok first, n)
      → first.1.tool_call_id ≡ call.id
  unfolding tool_result_entry
  answer_call-id call none m n first h = cc
  answer_call-id call (some d) m n first h = elim (Bool-cases d.approved) [
    | inr denied ↦ cc (rw (denied, answer_call) at h)
    | inl approved ↦ approved-id call m n first (rw (approved, answer_call) at h)
  ]

  pub answer_calls-ids :
      (work : Work) (calls : List ToolCallInput) (m n : Machine)
      (answered : List String × List ResultEntry)
      → answer_calls out offered work calls m ≡ (ok answered, n)
      → map (λ e. e.tool_call_id) answered.1 ≡ map (λ c. c.id) calls
  unfolding answer_calls
  answer_calls-ids work [] m n answered h = let same : [] ≡ answered.1 = cc h in rw (← same) refl
  answer_calls-ids work (call ∷ calls) m n answered h =
      let one = answer_call out offered call (decided work call) in
      let more = answer_calls out offered work calls in
      let join : List String × ResultEntry
          → List String × List ResultEntry
          → Exec Machine (List String × List ResultEntry) =
        λ first rest. pure (first.0 ++ rest.0, first.1 ∷ rest.1) in
      let (first, o, was, next) =
        first_returned one (λ first. more >>= join first) m n answered h in
      let (rest, p, were, last) = first_returned more (join first) o n answered next in
      let same = joined first rest answered p n last in
      let head = answer_call-id call (decided work call) m o first was in
      let tail = answer_calls-ids work calls o p rest were in rw (← same) (cc (head, tail))
