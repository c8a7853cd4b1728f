-- ===== src/Tasks/Completion.antt =====
-- `TaskCompletionTool`, over any source that keeps the contract `AgentTaskSource`: a third party's
-- too, of which nothing is known but its operations.
use prism_harness_py.Prelude.{String, Bool, true, false, Option, none, some, not}
use prism_harness_py.Value.{Value, str, Fields, end, field, get, is_text}
use prism_harness_py.Errors.{harness, HarnessError, not_this_agent}
use prism_harness_py.Result.{Result, ok, err}
use prism_harness_py.Exec.{Exec, pure, raise, lift, raise_if, ◌>>=◌, ◌>>◌}
use prism_harness_py.Tasks.State.{
  TaskState, value, TaskOutcome, state, Supplied, member, plain, parse,
}
use prism_harness_py.Tasks.Listing.{not_claim}
use prism_harness_py.Tasks.Lease.{require_identifier}

-- `AgentTask`, with what `getattr(task, "claimed_by", _MISSING)` finds
pub record AgentTask : Type 0 where
  pub id : String
  pub instruction : String
  pub state : TaskState
  pub claimed_by : Option Value

-- The two methods of the contract that the tool calls.
pub record AgentTaskSource (S : Type 0) : Type 0 where
  pub find : String → Exec S (Option AgentTask)
  pub release : AgentTask → (worker : String) → Supplied → Exec S (Unit {0})

-- `_outcome`
unfoldable pub outcome_of : Fields → Result TaskOutcome
outcome_of args = elim (get "outcome" args) [
  | none ↦ err (harness HarnessError.task_outcome_not_supplied)
  | some supplied ↦ parse (plain supplied)
]

-- The check before delegating: claimed, and by this worker; a holder that cannot be read is nobody.
abbrev pub is_held_by : String → AgentTask → Bool
is_held_by worker task = elim (not_claim task.state) [
  | true ↦ false
  | false ↦ is_text task.claimed_by worker
]

abbrev named_id : Option Value → Result String
named_id (some (str id)) = ok id
named_id _ = err (harness (HarnessError.task_identifier_blank "task"))

abbrev or_not_found : {S : Type 0} → String → Option AgentTask → Exec S AgentTask
or_not_found id none = raise (harness (HarnessError.task_not_found id))
or_not_found id (some task) = pure task

abbrev pub completed : String → TaskOutcome → Fields
completed id outcome = field "task_id" (str id) (field "state" (str (value (state outcome))) end)

-- `handle`
unfoldable pub handle :
    {S : Type 0} → AgentTaskSource S → (worker : String) → Fields → Exec S Fields
handle source worker args = do
  id ← lift (named_id (get "task_id" args))
  lift (require_identifier id "task")
  found ← source.find id
  task ← or_not_found id found
  raise_if (not (is_held_by worker task))
      (harness (HarnessError.task_lease_not_held id not_this_agent))
  outcome ← lift (outcome_of args)
  source.release task worker (member outcome)
  pure (completed id outcome)
