-- ===== src/Tasks/Tests.antt =====
-- Runs of the task source on a small list, and each theorem at an input that meets its hypotheses.
use prism_harness_py.Tasks.Allowance.{extension_bounded}
use prism_harness_py.Exec.{◌>>◌, pure}
use prism_harness_py.Tasks.Strictness.{parse_iff, require_lease_iff, IsLease}
use prism_harness_py.Tasks.Listed.{history-Extended}
use prism_harness_py.Tasks.Atomic.{outcome_earned, raising_changes_nothing, IsAtomic}
use prism_harness_py.Tasks.Closing.{handle_delegates, Refuses, Delegates}
use prism_harness_py.Subagents.{remaining_seconds, elapsed, exhaustion, start, RunBudget, RunLedger}
use prism_harness_py.Tasks.Completion.{outcome_of, completed, AgentTaskSource, handle, AgentTask}
use prism_harness_py.Tasks.Claiming.{claim-eq-none_iff, claim-Claims, Claims}
use prism_harness_py.Prelude.{
  ◌+◌, ◌-◌, ◌^◌, ◌≤◌, ◌⊎◌, eq_iff, arith, ℕ, ◌↔◌, String, Option, none, some, List, [], ◌∷◌, ◌≡◌,
  refl, false, ◌*◌,
}
use prism_harness_py.Prelude.Int.{◌-ℤ◌, scale, ◌≤ℤ◌, ◌+ℤ◌, ℤ, pos}
use prism_harness_py.Value.{end, str, field, null, ticks_per_second}
use prism_harness_py.Errors.{Error, harness, HarnessError, not_claimed}
use prism_harness_py.Result.{Result, ok, err}
use prism_harness_py.Store.{World}
use prism_harness_py.Python.{bytes, Python}
use prism_harness_py.Tasks.State.{
  Supplied, plain, TaskState, TaskOutcome, member, state_of_text, parse,
}
use prism_harness_py.Tasks.Record.{
  timestamp, new_record, StoredTask, mark, lapsed, expire_record, expire, moved, state_of, to_task,
}
use prism_harness_py.Tasks.Listing.{
  has_id, append_each, find_first, update_first, count, traverse, check_held,
}
use prism_harness_py.Tasks.Lease.{to_double, Seconds, whole, require_identifier, require_lease}
use prism_harness_py.Tasks.Steps.{release_by, tick, claim_by, Reach, here, next}
use prism_harness_py.Tasks.Order.{Extended, ids, Distinct}
use prism_harness_py.Tasks.Histories.{Holds, outcome_final, lease_excludes}
use prism_harness_py.Tasks.Exclusion.{claim_excludes}
use prism_harness_py.Tasks.Releasing.{release_exact, Permits, IsHeldBy}
use prism_harness_py.Tasks.Written.{held_in}
use prism_harness_py.Value.{Fields}
use prism_harness_py.Tasks.Record.{snapshot}
use prism_harness_py.Tasks.Source.{
  add, grant, current, lease_or, write_back, claim_record, settle_record, Source, add_many, claim,
  release, pending, records, find, extend_lease, hold, take, grant,
}

-- Unfolds what the operations call.
machinery : Unit {0}
unfolding claim add_many release pending records find extend_lease append_each require_identifier
    hold take grant require_lease find_first update_first count traverse mark lapsed expire_record
    expire moved state_of_text state_of to_task check_held parse
machinery = tt

instance abbrev plain_python : Python
plain_python = record { show = λ v. "1"; json = λ v. ""; b64decode = λ s. bytes 1 }

abbrev source : Source
source = record { key = "session:tasks"; lease_seconds = 300 }

abbrev empty : World
empty = record { entries = []; clock = 0; busy = λ k. false }

abbrev filled : World
filled = (add_many source ("write" ∷ "check" ∷ []) (some ("a" ∷ "b" ∷ [])) empty).1

abbrev taken : World
taken = (claim source "w1" none filled).1

claim-filled :
    (claim source "w1" none filled).0
    ≡ ok (
        some (record {
          id = "a";
          instruction = "write";
          state = TaskState.claimed;
          claimed_by = some "w1";
          claimed_until = some (pos 300);
        }))
unfolding machinery
claim-filled = refl

-- After the lease of 300 seconds the task is claimable again, and its first holder cannot release it.
later : World
later = record taken { clock = 300 * ticks_per_second }

pending-taken : (pending source taken ≡ 1) × (pending source later ≡ 2)
unfolding machinery later
pending-taken = (refl, refl)

release-taken : (release source "a" "w1" (member TaskOutcome.done) taken).0 ≡ ok tt
unfolding machinery
release-taken = refl

release-later :
    (release source "a" "w1" (member TaskOutcome.done) later).0
    ≡ err (harness (HarnessError.task_lease_not_held "a" not_claimed))
unfolding machinery later
release-later = refl

-- The list's ids, and the task that `taken` has in a claim.
names : Distinct (ids (held_in source filled))
unfolding machinery
names = ("a", refl, refl, ("b", refl, refl, tt))

abbrev first_task : StoredTask
first_task = record {
  id = "a";
  instruction = "write";
  state = TaskState.claimed;
  claimed_by = some "w1";
  claimed_until = some (pos 300);
}

-- Another worker's claim, a while after.
abbrev soon : World
soon = record taken { clock = 100 * ticks_per_second }

abbrev both : World
both = (claim source "w2" none soon).1

not_earlier : taken.clock ≤ 100 * ticks_per_second
unfolding machinery
not_earlier = omega arith

path : Reach source (λ v. v ≡ "w1") taken both
path =
    next (next here (tick (100 * ticks_per_second)) not_earlier (λ v h. cc)) (claim_by "w2" none) tt
      (λ v h same. ground (arith, eq_iff "w2" "w1"))

claim_excludes_example :
    (r : Fields) × Holds source "a" r both
    × IsHeldBy "w1" r
    × (first_task ≡ snapshot TaskState.claimed r)
unfolding machinery
claim_excludes_example =
    claim_excludes source "w1" none filled first_task (pos 300) names refl refl path refl

-- `a` settled by its holder, and what the list does after.
abbrev finished : World
finished = (release source "a" "w1" (member TaskOutcome.done) taken).1

abbrev settled_task : Fields
settled_task = settle_record TaskOutcome.done (claim_record "w1" 0 300 (new_record "a" "write"))

outcome_final_example : Holds source "a" settled_task (claim source "w2" none finished).1
unfolding machinery
outcome_final_example =
    outcome_final source "a" {s = finished} {Excluded = λ v. ⊥}
      (next here (claim_by "w2" none) tt (λ v h none_is. none_is)) settled_task TaskState.done refl
      refl refl

lease_excludes_example : Holds source "a" (claim_record "w1" 0 300 (new_record "a" "write")) both
unfolding machinery
lease_excludes_example =
    lease_excludes source "a" "w1" path (claim_record "w1" 0 300 (new_record "a" "write")) refl
      (refl, refl) refl

history_example : Extended (ids (held_in source taken)) (ids (held_in source both))
history_example = history-Extended source path

claim_example : Claims source "w1" none filled first_task taken
unfolding machinery
claim_example = claim-Claims source "w1" none filled first_task refl

abbrev nothing_taken : Option StoredTask
nothing_taken = none

claim_none_example : (nothing_taken ≡ none) ↔ (pending source empty ≡ 0)
unfolding machinery
claim_none_example = claim-eq-none_iff source "w1" none empty refl

release_example :
    ((p : Permits source "a" "w2" (member TaskOutcome.done) taken) × (release source "a" "w2"
          (member TaskOutcome.done)
          taken
        ≡ (
          ok tt,
          write_back source
              (update_first (has_id "a") (settle_record p.recorded) (current source taken))
              taken,
        )))
    ⊎ ((e : Error) × ¬ Permits source "a" "w2" (member TaskOutcome.done) taken
        × (release source "a" "w2" (member TaskOutcome.done) taken ≡ (err e, taken)))
release_example = release_exact source "a" "w2" (member TaskOutcome.done) taken

-- Above 2^53 every second int is between two doubles, and the even one of them is taken.
rounds_down : to_double (2 ^ 53 + 1) ≡ 2 ^ 53
unfolding to_double
rounds_down = refl

rounds_up : to_double (2 ^ 53 + 3) ≡ 2 ^ 53 + 4
unfolding to_double
rounds_up = refl

is_exact : to_double (2 ^ 53 - 1) ≡ 2 ^ 53 - 1
unfolding to_double
is_exact = refl

raising_example :
    ((instructions : List String) (ids : Option (List String))
      → IsAtomic (add_many source instructions ids) taken)
    × ((worker : String) (seconds : Option Seconds) → IsAtomic (claim source worker seconds) taken)
    × ((id worker : String) (outcome : Supplied)
        → IsAtomic (release source id worker outcome) taken)
    × ((id worker : String) (ledger : RunLedger) (budget : RunBudget) (first second : ℕ)
          (seconds : Option Seconds)
        → IsAtomic (extend_lease source id worker ledger budget first second seconds) taken)
raising_example = raising_changes_nothing source taken

earned_example :
    (state_of (claim_record "w1" 0 300 (new_record "a" "write")) ≡ ok TaskState.done)
    ⊎ ((worker : String) × (some "w1" ≡ some worker)
        × IsHeldBy worker (claim_record "w1" 0 300 (new_record "a" "write"))
        × (lapsed 0 (claim_record "w1" 0 300 (new_record "a" "write")) ≡ false))
unfolding machinery
earned_example =
    outcome_earned source (release_by "a" "w1" (member TaskOutcome.done)) "a"
      (claim_record "w1" 0 300 (new_record "a" "write")) settled_task taken TaskState.done tt refl
      refl refl refl

-- A run with forty seconds left of a minute asks for the whole lease.
abbrev spent : RunLedger
spent = record (start "run" 0) { steps = 2 }

abbrev minute : RunBudget
minute = record {
  max_steps = pos 8;
  max_cost_usd = none;
  max_seconds = some (pos 60);
  max_output_tokens_per_call = none;
}

abbrev now : ℕ
now = 20 * ticks_per_second

abbrev longer : StoredTask
longer = record first_task { claimed_until = some (pos 40) }

extension_example :
    (lease granted : ℕ) × (lease_or source none ≡ ok lease)
    × (some (pos 40) ≡ some (timestamp 0 granted))
    × (exhaustion spent minute now ≡ none)
    × (granted ≤ lease)
    × ((cap : ℤ)
        → some (pos 60) ≡ some cap
        → pos (granted * ticks_per_second) +ℤ elapsed spent now ≤ℤ scale ticks_per_second cap)
unfolding machinery exhaustion start remaining_seconds ◌-ℤ◌
extension_example = extension_bounded source "a" "w1" spent minute now now none taken longer refl

parse_example : (parse (plain (str "Done")) ≡ ok TaskOutcome.done) ↔ (str "Done" ≡ str "done")
parse_example = parse_iff (str "Done") TaskOutcome.done

lease_example : (require_lease (whole (pos 300)) ≡ ok 300) ↔ IsLease (whole (pos 300)) 300
lease_example = require_lease_iff (whole (pos 300)) 300

-- The completion tool over the store's source, whose tasks carry their holder as text.
abbrev contract_task : StoredTask → AgentTask
contract_task t = record {
  id = t.id;
  instruction = t.instruction;
  state = t.state;
  claimed_by = elim t.claimed_by [ none ↦ some null | some worker ↦ some (str worker) ];
}

abbrev answer : Result (Option StoredTask) → Result (Option AgentTask)
answer (ok none) = ok none
answer (ok (some t)) = ok (some (contract_task t))
answer (err e) = err e

abbrev contract : AgentTaskSource World
contract = record {
  find = λ id w. (answer (find source id w).0, (find source id w).1);
  release = λ task worker outcome. release source task.id worker outcome;
}

abbrev call : Fields
call = field "task_id" (str "a") (field "outcome" (str "done") end)

handle_example :
    ((d : Delegates contract "w1" call taken) × (handle contract "w1" call taken
        ≡ (contract.release d.task "w1" (member d.outcome) >> pure (completed d.id d.outcome))
            (contract.find d.id taken).1))
    ⊎ Refuses contract "w1" call taken
handle_example = handle_delegates contract "w1" call taken

handle-call : handle contract "w1" call taken ≡ (ok (completed "a" TaskOutcome.done), finished)
unfolding machinery handle outcome_of
handle-call = refl

-- An id already listed is refused, and `add` leaves the list as it was.
add-listed :
    add source "again" (some "a") filled
    ≡ (err (harness (HarnessError.duplicate_task_id "a")), filled)
unfolding machinery add
add-listed = refl
