-- ===== src/Runtime/Agreeing.antt =====
-- What a turn does with its tools, over two kinds of tool code that agree on wrapped tools.
use prism_harness_py.Prelude.{
  ◌<◌, String, Bool, Option, none, some, List, [], ◌∷◌, ◌++◌, ◌≡◌, ◌∙◌, inl, inr, refl, sym, ap,
  Bool-cases, Option-cases,
}
use prism_harness_py.Value.{Value, Fields}
use prism_harness_py.Python.{Python}
use prism_harness_py.Result.{ok}
use prism_harness_py.Exec.{Exec, Exec-cases, after_ok, after_err, lift, pure, ◌>>=◌, ◌>>◌}
use prism_harness_py.Session.{lock}
use prism_harness_py.ThreadRows.Rows.{ToolCallInput, Decision}
use prism_harness_py.ThreadRows.Scope.{approval_tool_scope}
use prism_harness_py.Modes.Mode.{AgentMode}
use prism_harness_py.Tools.Tool.{HarnessTool}
use prism_harness_py.Runtime.Data.{Machine, Outside}
use prism_harness_py.Runtime.Steps.{
  invoke, find_tool, tool_outcome, on_session, thread_rows, record_rows,
}
use prism_harness_py.Runtime.Gating.{bind_same}
use prism_harness_py.Runtime.Resolving.{
  Work, answer_call, answer_calls, run_approved, remade, decided, refused_call, answers_row,
  resolve_work, resolve_left, resolve_rows, resolve_if, resolve_approvals, unresolved, within_scope,
}
use prism_harness_py.Runtime.Offering.{AgentRuntime}
use prism_harness_py.Runtime.Opening.{Sent, Setup}
use prism_harness_py.Runtime.Turning.{
  bound_by, resume, resume_after, resume_within, resume_with, prepare, offered_to,
}
use prism_harness_py.Runtime.Wrapped.{
  AreWrapped, find_tool-wrapped, within_scope-AreWrapped, bound_by-AreWrapped,
}

-- Two that go on alike from whatever the first call returns.
pub bind_from :
    {A B : Type 0} (f : Exec Machine A) (g g' : A → Exec Machine B) (m : Machine)
    → ((a : A) (n : Machine) → f m ≡ (ok a, n) → g' a n ≡ g a n)
    → (f >>= g') m ≡ (f >>= g) m
bind_from f g g' m rest = elim (Exec-cases f m) [
  | inl (a, n, is) ↦ after_ok f g' m n a is ∙ rest a n is ∙ sym (after_ok f g m n a is)
  | inr (e, n, is) ↦ after_err f g' m n e is ∙ sym (after_err f g m n e is)
]

module _ ⦃py : Python⦄ (out : Outside) (handle : HarnessTool → Fields → Exec Machine Value)
    (agree : (tool : HarnessTool) (args : Fields) (n : Machine)
      → 0 < tool.wrappings
      → handle tool args n ≡ out.handle tool args n) where
  abbrev others : Outside
  others = record out { handle = handle }

  module _ (bounded : List HarnessTool) (wrapped : AreWrapped bounded) where
    invoke-same :
        (call : ToolCallInput) (m : Machine)
        → invoke others bounded call m ≡ invoke out bounded call m
    unfolding invoke
    invoke-same call m = elim (Option-cases (find_tool bounded call.name)) [
      | inl no_tool ↦ rw (no_tool, invoke) refl
      | inr (tool, is) ↦
          let same =
            agree tool call.arguments m (find_tool-wrapped bounded call.name tool wrapped is) in
          rw (is, invoke) (ap (λ p. (tool_outcome out call p.0, p.1)) same)
    ]

    run_approved-same :
        (call : ToolCallInput) (m : Machine)
        → run_approved others bounded call m ≡ run_approved out bounded call m
    unfolding run_approved
    run_approved-same call m = elim (Option-cases (find_tool bounded call.name)) [
      | inl no_tool ↦ rw (no_tool, run_approved) refl
      | inr (tool, is) ↦
          rw (is, run_approved) (ap (λ p. (refused_call call p.0, p.1)) (invoke-same call m))
    ]

    answer_call-same :
        (call : ToolCallInput) (d : Option Decision) (m : Machine)
        → answer_call others bounded call d m ≡ answer_call out bounded call d m
    answer_call-same call none m = refl
    answer_call-same call (some d) m = elim (Bool-cases d.approved) [
      | inr denied ↦ rw (denied, answer_call) refl
      | inl approved ↦
          rw (approved, answer_call)
            (bind_same (run_approved out bounded (remade call))
              (run_approved others bounded (remade call)) (λ entry. pure (call.name ∷ [], entry))
              (λ entry. pure (call.name ∷ [], entry)) m (run_approved-same (remade call) m)
              (λ entry n. refl))
    ]

    answer_calls-same :
        (work : Work) (calls : List ToolCallInput) (m : Machine)
        → answer_calls others bounded work calls m ≡ answer_calls out bounded work calls m
    unfolding answer_calls
    answer_calls-same work [] m = refl
    answer_calls-same work (call ∷ calls) m =
        let one = answer_call out bounded call (decided work call) in
        let one' = answer_call others bounded call (decided work call) in
        let more = answer_calls out bounded work calls in
        let more' = answer_calls others bounded work calls in
        bind_same one one' (λ first. more >>= λ rest. pure (first.0 ++ rest.0, first.1 ∷ rest.1))
          (λ first. more' >>= λ rest. pure (first.0 ++ rest.0, first.1 ∷ rest.1)) m
          (answer_call-same call (decided work call) m)
          (λ first n.
            bind_same more more' (λ rest. pure (first.0 ++ rest.0, first.1 ∷ rest.1))
              (λ rest. pure (first.0 ++ rest.0, first.1 ∷ rest.1)) n
              (answer_calls-same work calls n) (λ rest o. refl))

    resolve_work-same :
        (run_id : String) (work : Work) (m : Machine)
        → resolve_work others run_id bounded work m ≡ resolve_work out run_id bounded work m
    resolve_work-same run_id work m =
        bind_same (answer_calls out bounded work work.calls)
          (answer_calls others bounded work work.calls)
          (λ answered.
            record_rows out (some run_id) (answers_row work answered.1 ∷ [])
            >> pure (bounded, answered.0))
          (λ answered.
            record_rows others (some run_id) (answers_row work answered.1 ∷ [])
            >> pure (bounded, answered.0))
          m (answer_calls-same work work.calls m) (λ answered n. refl)

  module _ (mode : AgentMode) (run_id : String) (tools : List HarnessTool)
      (wrapped : AreWrapped tools) where
    resolve_left-same :
        (left : Option Work) (scope : Option (List String × Bool)) (m : Machine)
        → resolve_left others run_id tools left scope m ≡ resolve_left out run_id tools left scope m
    resolve_left-same none scope m = refl
    resolve_left-same (some work) scope m =
        resolve_work-same (within_scope scope tools) (within_scope-AreWrapped scope tools wrapped)
          run_id work m

    resolve_rows-same :
        (rows : List Fields) (m : Machine)
        → resolve_rows others mode tools run_id rows m ≡ resolve_rows out mode tools run_id rows m
    resolve_rows-same rows m =
        bind_from (lift (unresolved mode rows))
          (λ left. lift (approval_tool_scope rows) >>= resolve_left out run_id tools left)
          (λ left. lift (approval_tool_scope rows) >>= resolve_left others run_id tools left) m
          (λ left n _.
            bind_from (lift (approval_tool_scope rows)) (resolve_left out run_id tools left)
              (resolve_left others run_id tools left) n
              (λ scope o _. resolve_left-same left scope o))

    resolve_if-same :
        (left : Option Work) (m : Machine)
        → resolve_if others mode tools run_id left m ≡ resolve_if out mode tools run_id left m
    resolve_if-same none m = refl
    resolve_if-same (some work) m =
        bind_from (on_session (lock (λ s. (ok tt, s))))
          (λ _. thread_rows >>= resolve_rows out mode tools run_id)
          (λ _. thread_rows >>= resolve_rows others mode tools run_id) m
          (λ u n _.
            bind_from thread_rows (resolve_rows out mode tools run_id)
              (resolve_rows others mode tools run_id) n (λ rows o _. resolve_rows-same rows o))

    resolve_approvals-same :
        (m : Machine)
        → resolve_approvals others mode tools run_id m ≡ resolve_approvals out mode tools run_id m
    unfolding resolve_approvals
    resolve_approvals-same m =
        bind_from thread_rows
          (λ rows. lift (unresolved mode rows) >>= resolve_if out mode tools run_id)
          (λ rows. lift (unresolved mode rows) >>= resolve_if others mode tools run_id) m
          (λ rows n _.
            bind_from (lift (unresolved mode rows)) (resolve_if out mode tools run_id)
              (resolve_if others mode tools run_id) n (λ left o _. resolve_if-same left o))

  resume-same :
      (sent : Sent) (s : Setup) (tools : List HarnessTool) (m : Machine)
      → AreWrapped tools
      → resume others sent s tools m ≡ resume out sent s tools m
  resume-same sent s tools m wrapped =
      bind_from thread_rows (resume_after out sent s tools) (resume_after others sent s tools) m
        (λ rows n _.
          bind_from (lift (approval_tool_scope rows)) (resume_within out sent s tools)
            (resume_within others sent s tools) n
            (λ scope o _.
              bind_same (resolve_approvals out s.mode (bound_by s.mode scope tools) s.run_id)
                (resolve_approvals others s.mode (bound_by s.mode scope tools) s.run_id)
                (resume_with out sent s) (resume_with others sent s) o
                (resolve_approvals-same s.mode s.run_id (bound_by s.mode scope tools)
                  (bound_by-AreWrapped s.mode scope tools wrapped) o)
                (λ left p. refl)))

  pub prepare-same :
      (rt : AgentRuntime) (sent : Sent) (s : Setup) (m : Machine)
      → ((tools : List HarnessTool) (n : Machine)
          → on_session (offered_to rt s.mode sent.tool_names) m ≡ (ok tools, n)
          → AreWrapped tools)
      → prepare others rt sent s m ≡ prepare out rt sent s m
  unfolding prepare
  prepare-same rt sent s m offers =
      bind_from (on_session (offered_to rt s.mode sent.tool_names)) (resume out sent s)
        (resume others sent s) m (λ tools n is. resume-same sent s tools n (offers tools n is))
