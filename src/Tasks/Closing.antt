-- ===== src/Tasks/Closing.antt =====
-- The completion tool over any source, a third party's included (Tasks/Completion.antt).
use prism_harness_py.Prelude.{
  String, true, false, Option, none, some, ◌≡◌, refl, ap, ◌∙◌, arith, inl, inr, ◌⊎◌, Option-cases,
  Bool-cases,
}
use prism_harness_py.Value.{
  Value, null, bool, int, float, str, arr, obj, Fields, get, is_text, is_text-eq,
}
use prism_harness_py.Errors.{Error, harness, HarnessError, not_this_agent}
use prism_harness_py.Exec.{pure, ◌>>◌}
use prism_harness_py.Result.{ok, err, Result-cases}
use prism_harness_py.Tasks.State.{
  TaskState, claimed, TaskOutcome, value, state, member, plain, parse,
}
use prism_harness_py.Tasks.Listing.{not_claim}
use prism_harness_py.Tasks.Lease.{require_identifier}
use prism_harness_py.Tasks.Strictness.{parse_iff}
use prism_harness_py.Tasks.Completion.{
  AgentTask, AgentTaskSource, handle, completed, is_held_by, outcome_of,
}

module _ {S : Type 0} (source : AgentTaskSource S) (worker : String) (args : Fields) (s : S) where
  -- The one way to the source's `release`: the call names a task, the source finds it, claimed and
  -- held by the tool's worker, and the call asks for an outcome in its wire word.
  pub record Delegates : Type 0 where
    pub id : String
    pub named : get "task_id" args ≡ some (str id)
    pub task : AgentTask
    pub found : (source.find id s).0 ≡ ok (some task)
    pub in_claim : task.state ≡ claimed
    pub held : task.claimed_by ≡ some (str worker)
    pub outcome : TaskOutcome
    pub asked : get "outcome" args ≡ some (str (value (state outcome)))

  asked_for :
      (o : TaskOutcome) → outcome_of args ≡ ok o → get "outcome" args ≡ some (str (value (state o)))
  unfolding outcome_of
  asked_for o h = elim (Option-cases (get "outcome" args)) [
    | inl silent ↦ ground arith
    | inr (v, said) ↦
        let read : parse (plain v) ≡ ok o = ground arith in said ∙ ap some ((parse_iff v o).0 read)
  ]

  -- What the tool's check lets through.
  held_task :
      (t : AgentTask)
      → is_held_by worker t ≡ true
      → (t.state ≡ claimed) × (t.claimed_by ≡ some (str worker))
  held_task t h =
      let open_claim : not_claim t.state ≡ false = ground arith in
      let text : is_text t.claimed_by worker ≡ true = ground arith in
      (claimed_state t.state open_claim, is_text-eq t.claimed_by worker text)
    where
      claimed_state : (st : TaskState) → not_claim st ≡ false → st ≡ claimed
      claimed_state claimed e = refl
      claimed_state _ e = cc

  -- A call that raises before it reaches the source, or after the source's `find` alone.
  pub record Refuses : Type 0 where
    pub error : Error
    pub raised : (handle source worker args s).0 ≡ err error
    pub state_after :
        ((handle source worker args s).1 ≡ s)
        ⊎ ((id : String) × ((handle source worker args s).1 ≡ (source.find id s).1))

  -- With the id a call names, what the source's answer to `find` leads to.
  found_leads :
      (id : String)
      → get "task_id" args ≡ some (str id)
      → require_identifier id "task" ≡ ok tt
      → ((d : Delegates) × (handle source worker args s
            ≡ (source.release d.task worker (member d.outcome) >> pure (completed d.id d.outcome))
                (source.find d.id s).1))
        ⊎ Refuses
  unfolding handle
  found_leads id named valid = elim (Result-cases (source.find id s).0) [
    | inr (e, raised) ↦
        inr (record { error = e; raised = ground arith; state_after = inr (id, ground arith) })
    | inl (none, absent) ↦ inr (record {
      error = harness (HarnessError.task_not_found id);
      raised = ground arith;
      state_after = inr (id, ground arith);
    })
    | inl (some task, found) ↦ elim (Bool-cases (is_held_by worker task)) [
      | inr other ↦ inr (record {
        error = harness (HarnessError.task_lease_not_held id not_this_agent);
        raised = ground arith;
        state_after = inr (id, ground arith);
      })
      | inl mine ↦ elim (Result-cases (outcome_of args)) [
        | inr (e, unread) ↦
            inr (record { error = e; raised = ground arith; state_after = inr (id, ground arith) })
        | inl (o, read) ↦
            let (in_claim, held) = held_task task mine in
            inl (
              record {
                id = id;
                named = named;
                task = task;
                found = found;
                in_claim = in_claim;
                held = held;
                outcome = o;
                asked = asked_for o read;
              },
              ground arith,
            )
      ]
    ]
  ]

  refused_early : (e : Error) → handle source worker args s ≡ (err e, s) → Refuses
  refused_early e h = record {
    error = e;
    raised = ap (λ p. p.0) h;
    state_after = inl (ap (λ p. p.1) h);
  }

  -- Over any source whatever: a call of the tool either raises before the source's `release` is
  -- reached, with nothing run but at most the source's `find`; or the call named a task that the
  -- source found claimed and held by the tool's own worker, asked for an outcome by its exact word,
  -- and is then exactly the source's `release` of that task by that worker with that outcome.
  pub handle_delegates :
      ((d : Delegates) × (handle source worker args s
          ≡ (source.release d.task worker (member d.outcome) >> pure (completed d.id d.outcome))
              (source.find d.id s).1))
      ⊎ Refuses
  unfolding handle
  handle_delegates = by_name (get "task_id" args) refl
    where
      blank : Error
      blank = harness (HarnessError.task_identifier_blank "task")

      by_name :
          (o : Option Value)
          → get "task_id" args ≡ o
          → ((d : Delegates) × (handle source worker args s
                ≡ (source.release d.task worker (member d.outcome)
                      >> pure (completed d.id d.outcome))
                    (source.find d.id s).1))
            ⊎ Refuses
      by_name (some (str id)) e = elim (Result-cases (require_identifier id "task")) [
        | inr (x, empty) ↦ inr (refused_early x (ground arith))
        | inl (u, valid) ↦ found_leads id e valid
      ]
      by_name none e = inr (refused_early blank (ground arith))
      by_name (some null) e = inr (refused_early blank (ground arith))
      by_name (some (bool b)) e = inr (refused_early blank (ground arith))
      by_name (some (int n)) e = inr (refused_early blank (ground arith))
      by_name (some (float t)) e = inr (refused_early blank (ground arith))
      by_name (some (arr vs)) e = inr (refused_early blank (ground arith))
      by_name (some (obj d)) e = inr (refused_early blank (ground arith))
