-- ===== src/Runtime/Counting.antt =====
-- The ledger's count of steps does not go down in any part of a step.
use prism_harness_py.ThreadRows.View.{thread_view}
use prism_harness_py.Prelude.{
  subst, ℕ, ◌+◌, ◌≤◌, String, Bool, true, false, Option, none, some, List, [], ◌∷◌, map, ◌≡◌, inl,
  inr, refl, arith, if◌then◌else◌, Bool-cases, Option-cases,
}
use prism_harness_py.Value.{Value, Fields}
use prism_harness_py.Errors.{Exhaustion}
use prism_harness_py.Python.{Python}
use prism_harness_py.Result.{ok, Result-cases}
use prism_harness_py.Exec.{after_err, after_ok, Exec-cases, Exec, pure, raise, lift, ◌>>=◌, ◌>>◌}
use prism_harness_py.Session.{Session, complete_run}
use prism_harness_py.ThreadRows.Rows.{ToolCallInput, Request, ResultEntry}
use prism_harness_py.Runtime.Data.{
  LlmRequest, LlmResponse, HarnessTool, AgentMode, AgentResponse, Machine, Outside, Turn, Progress,
  again, call_input, needs_approval,
}
use prism_harness_py.Runtime.Steps.{
  assert_document, on_session, thread_rows, record_rows, invoke, finish, find_tool,
}
use prism_harness_py.Runtime.Responses.{
  failure_of, is_empty, refusals, is_failed, over, record_results, gate, gated_calls, refuse,
  end_run,
}
use prism_harness_py.Runtime.Loop.{
  view_rows, going_on, record_response, act, after_calls, record_then, run_then, conclude,
  run_calls, dispatch, answer,
}

-- The ledger's count of steps does not go down, whether the call returns or raises.
abbrev pub Keeps : {A : Type 0} → Exec Machine A → Type 0
Keeps f = (m : Machine) → m.ledger.steps ≤ (f m).1.ledger.steps

Keeps-bind :
    {A B : Type 0} (f : Exec Machine A) (g : A → Exec Machine B)
    → Keeps f
    → ((a : A) → Keeps (g a))
    → Keeps (f >>= g)
Keeps-bind f g h k m = elim (Exec-cases f m) [
  | inl (a, n, is) ↦
      let first : m.ledger.steps ≤ n.ledger.steps =
        subst (λ p. m.ledger.steps ≤ p.1.ledger.steps) is (h m) in
      rw (after_ok f g m n a is) (omega (arith, first, k a n))
  | inr (e, n, is) ↦
      rw (after_err f g m n e is) (subst (λ p. m.ledger.steps ≤ p.1.ledger.steps) is (h m))
]

-- The client and the tools may run agents of their own in the tree, and a ledger only grows.
pub record IsCounted (out : Outside) : Type 0 where
  pub client : (request : LlmRequest) → Keeps (out.client request)
  pub handle : (tool : HarnessTool) (args : Fields) → Keeps (out.handle tool args)

on_session-Keeps : {A : Type 0} (f : Exec Session A) → Keeps (on_session f)
on_session-Keeps f m = omega arith

record_rows-Keeps :
    (out : Outside) (run_id : Option String) (rows : List Fields)
    → Keeps (record_rows out run_id rows)
record_rows-Keeps out run_id rows m = omega arith

thread_rows-Keeps : Keeps thread_rows
thread_rows-Keeps m = ground arith

Keeps-then :
    {A : Type 0} (f : Exec Machine (Unit {0})) (g : Exec Machine A)
    → Keeps f
    → Keeps g
    → Keeps (f >> g)
Keeps-then f g h k = Keeps-bind f (λ u. g) h (λ u. k)

same-Keeps :
    {A : Type 0} (f : Exec Machine A) → ((m : Machine) → (f m).1.ledger ≡ m.ledger) → Keeps f
same-Keeps f same m = rw (same m) (omega arith)

over-Keeps : (f : Exec Machine AgentResponse) → Keeps f → Keeps (over f)
over-Keeps f h m = elim (Result-cases (f m).0) [
  | inl (u, is) ↦ rw (is, over) (h m)
  | inr (e, is) ↦ rw (is, over) (h m)
]

finish-Keeps :
    (out : Outside) (t : Turn) (finish_reason text : String) (called : List String)
    (why : Option Exhaustion) (document : Option Value)
    → Keeps (finish out t finish_reason text called why document)
unfolding finish
finish-Keeps out t finish_reason text called why document m =
    elim (Result-cases
      (complete_run t.run_id finish_reason called (out.stamp m.clock) m.session).0) [
        | inl (u, is) ↦ rw (is, finish) (omega arith)
        | inr (e, is) ↦ rw (is, finish) (omega arith)
      ]

-- What is over does not go on.
pub over-done :
    (f : Exec Machine AgentResponse) (more : Progress) (m n : Machine)
    → over f m ≡ (ok (again more), n)
    → ⊥
over-done f more m n h = elim (Result-cases (f m).0) [
  | inl (u, is) ↦ cc (rw (is, over) at h)
  | inr (e, is) ↦ cc (rw (is, over) at h)
]

gate-steps :
    (hex : ℕ → String) (mode : AgentMode) (calls : List ToolCallInput) (m : Machine)
    → (gate hex mode calls m).1.ledger ≡ m.ledger
gate-steps hex mode [] m = refl
gate-steps hex mode (call ∷ calls) m = elim (Bool-cases (needs_approval mode call.name)) [
  | inl gated ↦ rw (gated, gate) (gate-steps hex mode calls (record m { drawn = m.drawn + 1 }))
  | inr free ↦ rw (free, gate) (gate-steps hex mode calls m)
]

gated_calls-Keeps :
    (out : Outside) (t : Turn) (response : LlmResponse) → Keeps (gated_calls out t response)
gated_calls-Keeps out t response m = elim (Bool-cases (is_failed response.finish_reason)) [
  | inl failed ↦ rw (failed, gated_calls) (omega arith)
  | inr fine ↦
      rw (fine, gated_calls, gate-steps out.hex t.mode (map call_input response.tool_calls) m)
        (omega arith)
]

either :
    {A : Type 0} (b : Bool) (f g : Exec Machine A) → Keeps f → Keeps g → Keeps (if b then f else g)
either true f g h k = h
either false f g h k = k

record_results-Keeps :
    (out : Outside) (t : Turn) (results : List ResultEntry) → Keeps (record_results out t results)
record_results-Keeps out t [] m = omega arith
record_results-Keeps out t (r ∷ results) m = omega arith

refuse-Keeps : (out : Outside) (t : Turn) (response : LlmResponse) → Keeps (refuse out t response)
unfolding refuse
refuse-Keeps out t response =
    Keeps-then (record_results out t (refusals response)) (raise (failure_of response))
      (record_results-Keeps out t (refusals response)) (λ m. omega arith)

module _ ⦃py : Python⦄ (out : Outside) (counted : IsCounted out) where
  invoke-Keeps :
      (offered : List HarnessTool) (call : ToolCallInput) → Keeps (invoke out offered call)
  unfolding invoke
  invoke-Keeps offered call m = elim (Option-cases (find_tool offered call.name)) [
    | inl no_tool ↦ rw (no_tool, invoke) (omega arith)
    | inr (tool, is) ↦ rw (is, invoke) (counted.handle tool call.arguments m)
  ]

  run_then-Keeps :
      (t : Turn) (call : ToolCallInput) (after : Exec Machine (List String × List ResultEntry))
      → Keeps after
      → Keeps (run_then out t call after)
  run_then-Keeps t call after h =
      Keeps-bind (invoke out t.offered call)
        (λ entry. after >>= λ rest. pure (call.name ∷ rest.0, entry ∷ rest.1))
        (invoke-Keeps t.offered call)
        (λ entry.
          Keeps-bind after (λ rest. pure (call.name ∷ rest.0, entry ∷ rest.1)) h
            (λ rest n. omega arith))

  run_calls-Keeps : (t : Turn) (calls : List ToolCallInput) → Keeps (run_calls out t calls)
  unfolding run_calls
  run_calls-Keeps t [] m = omega arith
  run_calls-Keeps t (call ∷ calls) m =
      elim (needs_approval t.mode call.name)
        as (λ b.
          m.ledger.steps
          ≤ ((if b
              then run_calls out t calls m
              else run_then out t call (run_calls out t calls) m)).1.ledger.steps) [
                | true ↦ run_calls-Keeps t calls m
                | false ↦ run_then-Keeps t call (run_calls out t calls) (run_calls-Keeps t calls) m
              ]

  dispatch-Keeps :
      (t : Turn) (st : Progress) (response : LlmResponse) (gated : List (ToolCallInput × Request))
      → Keeps (dispatch out t st response gated)
  unfolding dispatch
  dispatch-Keeps t st response gated =
      Keeps-bind (run_calls out t (map call_input response.tool_calls))
        (after_calls out t st response gated)
        (run_calls-Keeps t (map call_input response.tool_calls))
        (λ ran.
          Keeps-then (record_results out t ran.1) (going_on t st response gated ran.0)
            (record_results-Keeps out t ran.1) (λ m. omega arith))

  conclude-Keeps :
      (t : Turn) (st : Progress) (response : LlmResponse) → Keeps (conclude out t st response)
  unfolding conclude
  conclude-Keeps t st response m = elim (Option-cases t.schema) [
    | inl free ↦
        rw (free, conclude)
          (over-Keeps (finish out t response.finish_reason response.text st.called none none)
            (finish-Keeps out t response.finish_reason response.text st.called none none) m)
    | inr (schema, asked) ↦
        rw (asked, conclude)
          (Keeps-then (lift (assert_document out schema response))
            (end_run out t st response (some response.structured)) (λ n. omega arith)
            (over-Keeps
              (finish out t response.finish_reason response.text st.called none
                (some response.structured))
              (finish-Keeps out t response.finish_reason response.text st.called none
                (some response.structured)))
            m)
  ]

  act-Keeps :
      (t : Turn) (st : Progress) (response : LlmResponse) (gated : List (ToolCallInput × Request))
      → Keeps (act out t st response gated)
  act-Keeps t st response gated =
      either (is_failed response.finish_reason) _ _ (refuse-Keeps out t response) (
        either (is_empty response.tool_calls) _ _ (conclude-Keeps t st response)
          (dispatch-Keeps t st response gated))

  pub view_rows-Keeps : Keeps view_rows
  view_rows-Keeps =
      Keeps-bind thread_rows (λ rows. lift (thread_view rows)) thread_rows-Keeps
        (λ rows m. omega arith)

  pub answer-Keeps :
      (t : Turn) (st : Progress) (response : LlmResponse) → Keeps (answer out t st response)
  unfolding answer
  answer-Keeps t st response =
      Keeps-bind (gated_calls out t response) (record_then out t st response)
        (gated_calls-Keeps out t response)
        (λ gated.
          Keeps-then (record_response out t response gated) (act out t st response gated)
            (λ m. omega arith) (act-Keeps t st response gated))
