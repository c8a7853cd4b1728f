-- ===== src/Runtime/Documents.antt =====
-- A document that a run returns is one that fits.
use prism_harness_py.Subagents.{exhaustion}
use prism_harness_py.Errors.{Exhaustion}
use prism_harness_py.Session.{complete_run, assert_writable}
use prism_harness_py.ThreadRows.Rows.{Request, ToolCallInput}
use prism_harness_py.Structured.Check.{Problem, schema_name}
use prism_harness_py.Prelude.{
  ◌++◌, map, sym, ℕ, zero, suc, String, Bool, true, false, Option, none, some, List, [], ◌∷◌, ◌≡◌,
  inl, inr, refl, ◌∙◌, ap, if◌then◌else◌, Bool-cases, Option-cases,
}
use prism_harness_py.Value.{Value, Fields}
use prism_harness_py.Python.{Python}
use prism_harness_py.Result.{ok, Result-cases}
use prism_harness_py.Exec.{raise, Exec, lift, ◌>>=◌, ◌>>◌, Exec-cases, after_ok, after_err}
use prism_harness_py.Structured.Conforms.{Conforms}
use prism_harness_py.Structured.Verdict.{schema_problems-nil_iff}
use prism_harness_py.Runtime.Data.{
  call_input, LlmResponse, AgentResponse, Machine, Outside, Turn, Progress, Next, done, again,
}
use prism_harness_py.Runtime.Steps.{
  response_of, violation, is_null, on_session, assert_document, finish,
}
use prism_harness_py.Runtime.Responses.{
  over, charge, failure_of, gated_calls, is_empty, is_failed, refusals, request_of, record_results,
  end_run, refuse,
}
use prism_harness_py.Runtime.Loop.{
  waiting, record_response, after_calls, record_then, charge_then, act, going_on, run_calls,
  start_loop, ask_with, view_rows, conclude, dispatch, answer, ask, step, steps, loop, follow,
}

-- What the caller of a run may be given: a document only if one was asked for, and then one that
-- conforms.
abbrev Fits : Turn → AgentResponse → Type 0
Fits t response =
    (document : Value)
    → response.structured ≡ some document
    → (schema : Fields) × (t.schema ≡ some schema) × Conforms schema document

abbrev FitsNext : Turn → Next → Type 0
FitsNext t (done response) = Fits t response
FitsNext t (again more) = Unit

abbrev Ends : Turn → Exec Machine Next → Type 0
Ends t f = (m n : Machine) (next : Next) → f m ≡ (ok next, n) → FitsNext t next

Ends-bind :
    {A : Type 0} (t : Turn) (f : Exec Machine A) (g : A → Exec Machine Next)
    → ((a : A) → Ends t (g a))
    → Ends t (f >>= g)
Ends-bind t f g h m n next is = elim (Exec-cases f m) [
  | inl (a, o, was) ↦ h a o n next (sym (after_ok f g m o a was) ∙ is)
  | inr (e, o, was) ↦ cc (is, after_err f g m o e was)
]

either :
    (t : Turn) (b : Bool) (f g : Exec Machine Next)
    → Ends t f
    → Ends t g
    → Ends t (if b then f else g)
either t true f g h k = h
either t false f g h k = k

violation-none :
    (out : Outside) (response : LlmResponse) (problems : List Problem)
    → violation out response problems ≡ ok tt
    → problems ≡ []
violation-none out response [] h = refl
violation-none out response (p ∷ problems) h = cc

module _ ⦃py : Python⦄ (out : Outside) (t : Turn) where
  assert_document-Conforms :
      (schema : Fields) (response : LlmResponse)
      → assert_document out schema response ≡ ok tt
      → Conforms schema response.structured
  unfolding assert_document
  assert_document-Conforms schema response h =
      let (to, from) = schema_problems-nil_iff schema response.structured (schema_name schema) in
      elim (Bool-cases (is_null response.structured)) [
        | inl null_there ↦ cc (rw (null_there, assert_document) at h)
        | inr there ↦ to (violation-none out response _ (rw (there, assert_document) at h))
      ]

  ended-Fits :
      (reason text : String) (called : List String) (why : Option Exhaustion)
      (document : Option Value)
      → ((d : Value)
          → document ≡ some d
          → (schema : Fields) × (t.schema ≡ some schema) × Conforms schema d)
      → Ends t (over (finish out t reason text called why document))
  unfolding finish
  ended-Fits reason text called why document fits m n next is =
      elim (Result-cases (complete_run t.run_id reason called (out.stamp m.clock) m.session).0) [
        | inr (e, was) ↦ cc (rw (was, over, finish) at is)
        | inl (u, was) ↦
            let after =
              (on_session (complete_run t.run_id reason called (out.stamp m.clock)) m).1 in
            let same : done (response_of t reason text called why document after) ≡ next =
              cc (rw (was, over, finish) at is) in
            rw (← same) fits
      ]

  going_on-Fits :
      (st : Progress) (response : LlmResponse) (gated : List (ToolCallInput × Request))
      (called : List String)
      → Ends t (going_on t st response gated called)
  going_on-Fits st response [] called m n next is =
      let same : again (record { called = st.called ++ called; text = response.text }) ≡ next =
        cc in
      rw (← same) tt
  going_on-Fits st response (g ∷ gated) called m n next is =
      let same : done (waiting t response (st.called ++ called) (g ∷ gated) m) ≡ next = cc in
      rw (← same) (λ d h. cc)

  asserted :
      (st : Progress) (response : LlmResponse) (schema : Fields)
      → t.schema ≡ some schema
      → Ends t (
          lift (assert_document out schema response)
          >> end_run out t st response (some response.structured))
  asserted st response schema asked m n next is =
      elim (Result-cases (assert_document out schema response)) [
        | inr (e, was) ↦ cc (
          is,
          after_err (lift (assert_document out schema response))
              (λ u. end_run out t st response (some response.structured)) m m e
              (ap (λ r. (r, m)) was),
        )
        | inl (u, was) ↦
            let conforms = assert_document-Conforms schema response was in
            ended-Fits response.finish_reason response.text st.called none
              (some response.structured)
              (λ d h.
                let same : response.structured ≡ d = cc in (schema, asked, rw (← same) conforms))
              m n next
              (sym (
                  after_ok (lift (assert_document out schema response))
                    (λ v. end_run out t st response (some response.structured)) m m u
                    (ap (λ r. (r, m)) was))
                ∙ is)
      ]

  refuse-Fits : (response : LlmResponse) → Ends t (refuse out t response)
  unfolding refuse
  refuse-Fits response =
      Ends-bind t (record_results out t (refusals response)) (λ u. raise (failure_of response))
        (λ u m n next is. cc)

  dispatch-Fits :
      (st : Progress) (response : LlmResponse) (gated : List (ToolCallInput × Request))
      → Ends t (dispatch out t st response gated)
  unfolding dispatch
  dispatch-Fits st response gated =
      Ends-bind t (run_calls out t (map call_input response.tool_calls))
        (after_calls out t st response gated)
        (λ ran.
          Ends-bind t (record_results out t ran.1) (λ u. going_on t st response gated ran.0)
            (λ u. going_on-Fits st response gated ran.0))

  conclude-Fits : (st : Progress) (response : LlmResponse) → Ends t (conclude out t st response)
  unfolding conclude
  conclude-Fits st response m n next is = elim (Option-cases t.schema) [
    | inl free ↦
        ended-Fits response.finish_reason response.text st.called none none (λ d h. cc) m n next
          (rw (free, conclude) at is)
    | inr (schema, asked) ↦ asserted st response schema asked m n next (rw (asked, conclude) at is)
  ]

  act-Fits :
      (st : Progress) (response : LlmResponse) (gated : List (ToolCallInput × Request))
      → Ends t (act out t st response gated)
  act-Fits st response gated =
      either t (is_failed response.finish_reason) (refuse out t response) _ (refuse-Fits response) (
        either t (is_empty response.tool_calls) (conclude out t st response)
          (dispatch out t st response gated) (conclude-Fits st response)
          (dispatch-Fits st response gated))

  ask-Fits : (st : Progress) → Ends t (ask out t st)
  unfolding ask answer
  ask-Fits st = Ends-bind t view_rows (ask_with out t st) (λ view.
      Ends-bind t (out.client (request_of t view)) (charge_then out t st) (λ response m.
        Ends-bind t (gated_calls out t response) (record_then out t st response)
          (λ gated.
            Ends-bind t (record_response out t response gated) (λ u. act out t st response gated)
              (λ u. act-Fits st response gated))
          (charge response m)))

  spent-Fits :
      (st : Progress) (why : Exhaustion)
      → Ends t (over (finish out t "budget_exhausted" st.text st.called (some why) none))
  spent-Fits st why m n next is =
      ended-Fits "budget_exhausted" st.text st.called (some why) none (λ d h. cc) m n next is

  step-Fits : (st : Progress) → Ends t (step out t st)
  unfolding step
  step-Fits st m n next is = elim (Option-cases (exhaustion m.ledger t.budget m.clock)) [
    | inl may ↦ ask-Fits st m n next (rw (may, step) at is)
    | inr (why, spent) ↦ spent-Fits st why m n next (rw (spent, step) at is)
  ]

  steps-Fits :
      (fuel : ℕ) (st : Progress) (m n : Machine) (response : AgentResponse)
      → steps out t fuel st m ≡ some (ok response, n)
      → Fits t response
  unfolding steps
  steps-Fits zero st m n response h = cc
  steps-Fits (suc fuel) st m n response h = elim (Exec-cases (step out t st) m) [
    | inr (e, o, is) ↦ cc (h, ap (follow (steps out t fuel)) is)
    | inl (done ended, o, is) ↦
        let same : ended ≡ response = cc (h, ap (follow (steps out t fuel)) is) in
        rw (← same) (step-Fits st m o (done ended) is)
    | inl (again more, o, is) ↦
        steps-Fits fuel more o n response (sym (ap (follow (steps out t fuel)) is) ∙ h)
  ]

  loop-Fits :
      (fuel : ℕ) (called : List String) (m n : Machine) (response : AgentResponse)
      → loop out t fuel called m ≡ some (ok response, n)
      → Fits t response
  unfolding loop
  loop-Fits fuel called m n response h = elim (Exec-cases (on_session assert_writable) m) [
    | inr (e, o, is) ↦ cc (h, ap (start_loop (steps out t fuel) called) is)
    | inl (u, o, is) ↦
        steps-Fits fuel (record { called = called; text = "" }) o n response
          (sym (ap (start_loop (steps out t fuel) called) is) ∙ h)
  ]

-- A run gives its caller a document only if its turn asked for one, and then one that satisfies the
-- turn's schema.
pub loop-structured :
    ⦃py : Python⦄ (out : Outside) (t : Turn) (fuel : ℕ) (called : List String) (m n : Machine)
    (response : AgentResponse) (document : Value)
    → loop out t fuel called m ≡ some (ok response, n)
    → response.structured ≡ some document
    → (schema : Fields) × (t.schema ≡ some schema) × Conforms schema document
loop-structured out t fuel called m n response document ran given =
    loop-Fits out t fuel called m n response ran document given
