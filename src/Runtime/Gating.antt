-- ===== src/Runtime/Gating.antt =====
-- What a run's loop makes no use of: the client when the budget is spent, and the tools that wait
-- for a person.
use prism_harness_py.ThreadRows.View.{thread_view}
use prism_harness_py.Session.{assert_writable}
use prism_harness_py.Prelude.{
  map, sym, ℕ, zero, suc, String, false, Option, none, some, List, [], ◌∷◌, ◌≡◌, inl, inr, refl,
  ◌∙◌, ap, arith, Bool-cases, Option-cases, str_eq, eq_iff,
}
use prism_harness_py.Value.{Value, Fields}
use prism_harness_py.Python.{Python}
use prism_harness_py.Result.{Result, ok, err}
use prism_harness_py.Exec.{lift, pure, Exec, ◌>>=◌, Exec-cases, after_ok, after_err}
use prism_harness_py.Subagents.{exhaustion}
use prism_harness_py.ThreadRows.Rows.{ToolCallInput, Request, ResultEntry}
use prism_harness_py.Runtime.Data.{
  LlmRequest, LlmResponse, HarnessTool, AgentResponse, Machine, Outside, Turn, Progress, Next, done,
  again, call_input, needs_approval,
}
use prism_harness_py.Runtime.Steps.{
  assert_document, thread_rows, finish, on_session, invoke, find_tool, tool_outcome,
}
use prism_harness_py.Runtime.Responses.{charge, request_of, gated_calls, refuse}
use prism_harness_py.Runtime.Loop.{
  charge_then, record_response, after_calls, ask_with, record_then, act, conclude, start_loop,
  view_rows, run_then, run_calls, dispatch, answer, ask, step, steps, loop, follow,
}

pub bind_same :
    {A B : Type 0} (f f' : Exec Machine A) (g g' : A → Exec Machine B) (m : Machine)
    → f' m ≡ f m
    → ((a : A) (n : Machine) → g' a n ≡ g a n)
    → (f' >>= g') m ≡ (f >>= g) m
bind_same f f' g g' m first rest = elim (Exec-cases f m) [
  | inl (a, n, is) ↦ after_ok f' g' m n a (first ∙ is) ∙ rest a n ∙ sym (after_ok f g m n a is)
  | inr (e, n, is) ↦ after_err f' g' m n e (first ∙ is) ∙ sym (after_err f g m n e is)
]

pub find_tool-name :
    (tools : List HarnessTool) (name : String) (tool : HarnessTool)
    → find_tool tools name ≡ some tool
    → tool.name ≡ name
find_tool-name [] name tool h = cc
find_tool-name (t ∷ tools) name tool h = elim (Bool-cases (str_eq t.name name)) [
  | inl is ↦ ground (arith, eq_iff t.name name)
  | inr other ↦ find_tool-name tools name tool (rw other at h)
]

follow-same :
    (go go' : Progress → Machine → Option (Result AgentResponse × Machine))
    (p : Result Next × Machine)
    → ((st : Progress) (m : Machine) → go' st m ≡ go st m)
    → follow go' p ≡ follow go p
follow-same go go' (err e, m) same = refl
follow-same go go' (ok (done response), m) same = refl
follow-same go go' (ok (again more), m) same = same more m

start-same :
    (go go' : Progress → Machine → Option (Result AgentResponse × Machine)) (called : List String)
    (p : Result (Unit {0}) × Machine)
    → ((st : Progress) (m : Machine) → go' st m ≡ go st m)
    → start_loop go' called p ≡ start_loop go called p
start-same go go' called (err e, m) same = refl
start-same go go' called (ok u, m) same = same _ m

view_rows-same : ⦃py : Python⦄ (m : Machine) → (view_rows m).1 ≡ m
view_rows-same m = elim (Exec-cases thread_rows m) [
  | inl (rows, n, is) ↦
      ap (λ p. p.1) (after_ok thread_rows (λ all. lift (thread_view all)) m n rows is)
      ∙ sym (ap (λ p. p.1) is)
  | inr (e, n, is) ↦
      ap (λ p. p.1) (after_err thread_rows (λ all. lift (thread_view all)) m n e is)
      ∙ sym (ap (λ p. p.1) is)
]

-- Other code outside: another client and other tools, that do the same where the loop may use them.
module _ ⦃py : Python⦄ (out : Outside) (t : Turn) (client : LlmRequest → Exec Machine LlmResponse)
    (handle : HarnessTool → Fields → Exec Machine Value)
    (same_client : (request : LlmRequest) (n : Machine)
      → exhaustion n.ledger t.budget n.clock ≡ none
      → client request n ≡ out.client request n)
    (same_handle : (name : String) (tool : HarnessTool) (args : Fields) (n : Machine)
      → find_tool t.offered name ≡ some tool
      → needs_approval t.mode tool.name ≡ false
      → handle tool args n ≡ out.handle tool args n) where
  abbrev other : Outside
  other = record out { client = client; handle = handle }

  invoke-same :
      (call : ToolCallInput) (m : Machine)
      → needs_approval t.mode call.name ≡ false
      → invoke other t.offered call m ≡ invoke out t.offered call m
  unfolding invoke
  invoke-same call m free = elim (Option-cases (find_tool t.offered call.name)) [
    | inl no_tool ↦ rw (no_tool, invoke) refl
    | inr (tool, is) ↦
        let named = find_tool-name t.offered call.name tool is in
        let same = same_handle call.name tool call.arguments m is (rw named free) in
        rw (is, invoke) (ap (λ p. (tool_outcome out call p.0, p.1)) same)
  ]

  run_then-same :
      (call : ToolCallInput) (after after' : Exec Machine (List String × List ResultEntry))
      (m : Machine)
      → needs_approval t.mode call.name ≡ false
      → ((n : Machine) → after' n ≡ after n)
      → run_then other t call after' m ≡ run_then out t call after m
  run_then-same call after after' m free same =
      bind_same (invoke out t.offered call) (invoke other t.offered call)
        (λ entry. after >>= λ rest. pure (call.name ∷ rest.0, entry ∷ rest.1))
        (λ entry. after' >>= λ rest. pure (call.name ∷ rest.0, entry ∷ rest.1)) m
        (invoke-same call m free)
        (λ entry n.
          bind_same after after' (λ rest. pure (call.name ∷ rest.0, entry ∷ rest.1))
            (λ rest. pure (call.name ∷ rest.0, entry ∷ rest.1)) n (same n) (λ rest o. refl))

  run_calls-same :
      (calls : List ToolCallInput) (m : Machine)
      → run_calls other t calls m ≡ run_calls out t calls m
  unfolding run_calls
  run_calls-same [] m = refl
  run_calls-same (call ∷ calls) m = elim (Bool-cases (needs_approval t.mode call.name)) [
    | inl gated ↦ rw (gated, run_calls) (run_calls-same calls m)
    | inr free ↦
        rw (free, run_calls)
          (run_then-same call (run_calls out t calls) (run_calls other t calls) m free
            (run_calls-same calls))
  ]

  dispatch-same :
      (st : Progress) (response : LlmResponse) (gated : List (ToolCallInput × Request))
      (m : Machine)
      → dispatch other t st response gated m ≡ dispatch out t st response gated m
  unfolding dispatch
  dispatch-same st response gated m =
      bind_same (run_calls out t (map call_input response.tool_calls))
        (run_calls other t (map call_input response.tool_calls))
        (after_calls out t st response gated) (after_calls other t st response gated) m
        (run_calls-same (map call_input response.tool_calls) m) (λ ran n. refl)

  conclude-same :
      (st : Progress) (response : LlmResponse) (m : Machine)
      → conclude other t st response m ≡ conclude out t st response m
  unfolding conclude finish assert_document
  conclude-same st response m = refl

  refuse-same :
      (response : LlmResponse) (m : Machine) → refuse other t response m ≡ refuse out t response m
  unfolding refuse
  refuse-same response m = refl

  act-same :
      (st : Progress) (response : LlmResponse) (gated : List (ToolCallInput × Request))
      (m : Machine)
      → act other t st response gated m ≡ act out t st response gated m
  act-same st response gated m = ground (
    arith,
    refuse-same response m,
    conclude-same st response m,
    dispatch-same st response gated m,
  )

  answer-same :
      (st : Progress) (response : LlmResponse) (m : Machine)
      → answer other t st response m ≡ answer out t st response m
  unfolding answer
  answer-same st response m =
      bind_same (gated_calls out t response) (gated_calls other t response)
        (record_then out t st response) (record_then other t st response) m refl
        (λ gated n.
          bind_same (record_response out t response gated) (record_response other t response gated)
            (λ u. act out t st response gated) (λ u. act other t st response gated) n refl
            (λ u o. act-same st response gated o))

  ask-same :
      (st : Progress) (m : Machine)
      → exhaustion m.ledger t.budget m.clock ≡ none
      → ask other t st m ≡ ask out t st m
  unfolding ask
  ask-same st m may = elim (Exec-cases view_rows m) [
    | inr (e, n, is) ↦
        after_err view_rows (ask_with other t st) m n e is
        ∙ sym (after_err view_rows (ask_with out t st) m n e is)
    | inl (view, n, is) ↦
        let same : m ≡ n = sym (view_rows-same m) ∙ ap (λ p. p.1) is in
        let asks =
          bind_same (out.client (request_of t view)) (client (request_of t view))
            (charge_then out t st) (charge_then other t st) n
            (same_client (request_of t view) n (rw (← same) may))
            (λ response o. answer-same st response (charge response o)) in
        after_ok view_rows (ask_with other t st) m n view is
        ∙ asks
        ∙ sym (after_ok view_rows (ask_with out t st) m n view is)
  ]

  step-same : (st : Progress) (m : Machine) → step other t st m ≡ step out t st m
  unfolding step finish
  step-same st m = elim (Option-cases (exhaustion m.ledger t.budget m.clock)) [
    | inl may ↦ rw (may, step) (ask-same st m may)
    | inr (why, is) ↦ rw (is, step) refl
  ]

  steps-same :
      (fuel : ℕ) (st : Progress) (m : Machine) → steps other t fuel st m ≡ steps out t fuel st m
  unfolding steps
  steps-same zero st m = refl
  steps-same (suc fuel) st m =
      ap (follow (steps other t fuel)) (step-same st m)
      ∙ follow-same (steps out t fuel) (steps other t fuel) (step out t st m) (steps-same fuel)

  pub loop-same :
      (fuel : ℕ) (called : List String) (m : Machine)
      → loop other t fuel called m ≡ loop out t fuel called m
  unfolding loop
  loop-same fuel called m =
      start-same (steps out t fuel) (steps other t fuel) called (on_session assert_writable m)
        (steps-same fuel)

-- A tool that needs approval in the run's mode is never called by the loop, whatever the model asks
-- for: a run with other tools in the place of those goes the same way to the same end.
pub loop-gated_unused :
    ⦃py : Python⦄ (out : Outside) (t : Turn) (handle : HarnessTool → Fields → Exec Machine Value)
    → ((tool : HarnessTool) (args : Fields) (n : Machine)
        → needs_approval t.mode tool.name ≡ false
        → handle tool args n ≡ out.handle tool args n)
    → (fuel : ℕ) (called : List String) (m : Machine)
    → loop (record out { handle = handle }) t fuel called m ≡ loop out t fuel called m
loop-gated_unused out t handle same =
    loop-same out t out.client handle (λ request n may. refl)
      (λ name tool args n found. same tool args n)

-- The client is never asked when the budget is spent: a run with another client, that answers as
-- the first whenever the ledger leaves something to spend, goes the same way to the same end.
pub loop-client_unasked :
    ⦃py : Python⦄ (out : Outside) (t : Turn) (client : LlmRequest → Exec Machine LlmResponse)
    → ((request : LlmRequest) (n : Machine)
        → exhaustion n.ledger t.budget n.clock ≡ none
        → client request n ≡ out.client request n)
    → (fuel : ℕ) (called : List String) (m : Machine)
    → loop (record out { client = client }) t fuel called m ≡ loop out t fuel called m
loop-client_unasked out t client same =
    loop-same out t client out.handle same (λ name tool args n found free. refl)
