-- ===== src/Tasks/Source.antt =====
-- `StoreTaskSource`: every operation, over the world of its store.
use prism_harness_py.Prelude.{
  ℕ, min, String, Bool, Option, none, some, List, [], ◌∷◌, map, if◌then◌else◌, str_eq,
}
use prism_harness_py.Prelude.Int.{pos, leb_ℤ, pos_part}
use prism_harness_py.Value.{null, int, str, arr, obj, Fields, put, of_list}
use prism_harness_py.Errors.{
  harness, value_error, HarnessError, not_claimed, expired, exhausted, no_time_left,
}
use prism_harness_py.Result.{Result, ok, err}
use prism_harness_py.Exec.{Exec, pure, raise, lift, raise_if, ◌>>=◌, ◌>>◌}
use prism_harness_py.Store.{World, Durability, is_durable, with_lock}
use prism_harness_py.Store
use prism_harness_py.Python.{Python}
use prism_harness_py.Subagents.{RunLedger, RunBudget, exhaustion, remaining_seconds}
use prism_harness_py.Tasks.State.{value, TaskOutcome, state, Supplied, parse}
use prism_harness_py.Tasks.Record.{StoredTask, mark, expire, moved, to_task, timestamp}
use prism_harness_py.Tasks.Listing.{
  find_first, update_first, count, traverse, is_todo, has_id, records_of, with_ids, count_differs,
  append_each, check_held,
}
use prism_harness_py.Tasks.Lease.{Seconds, require_lease, require_identifier}

pub record Source : Type 0 where
  pub key : String
  pub lease_seconds : ℕ

abbrev opened : String → Result ℕ → Result Source
opened key (ok lease) = ok (record { key = key; lease_seconds = lease })
opened key (err e) = err e

-- `StoreTaskSource.__init__`
unfoldable pub open_source : Durability → (key : String) → Seconds → Result Source
open_source durability key seconds =
    if is_durable durability
    then opened key (require_lease seconds)
    else err (harness HarnessError.volatile_task_source)

-- `_write`
abbrev pub write : Source → (stored : Fields) → List Fields → World → World
write source stored records =
    Store.put source.key (put "tasks" (arr (of_list (map obj records))) stored)

abbrev pub lease_or : Source → Option Seconds → Result ℕ
lease_or source none = ok source.lease_seconds
lease_or source (some seconds) = require_lease seconds

-- What `_read` sees: the stored dict, and its records with the lapsed claims returned to todo.
abbrev pub stored_in : Source → World → Fields
stored_in source w = Store.get_or_empty source.key w

abbrev pub current : Source → World → List Fields
current source w = expire w.clock (records_of (stored_in source w))

abbrev pub lapsed_any : Source → World → Bool
lapsed_any source w = moved w.clock (records_of (stored_in source w))

-- Writing back the records of a world, changed.
abbrev pub write_back : Source → List Fields → World → World
write_back source records w = write source (stored_in source w) records w

-- The claim of a record: its new state, holder and expiry.
abbrev pub claim_record : (worker : String) (now lease : ℕ) → Fields → Fields
claim_record worker now lease = mark "claimed" (str worker) (int (timestamp now lease))

-- The end of a claim.
abbrev pub settle_record : TaskOutcome → Fields → Fields
settle_record outcome = mark (value (state outcome)) null null

abbrev pub hold_record : (now granted : ℕ) → Fields → Fields
hold_record now granted = put "claimed_until" (int (timestamp now granted))

-- The seconds that `extend_lease` grants: none to a run that may not spend again, and no more than
-- the run has left. The monotonic clock is read twice.
unfoldable pub grant :
    (id : String) (lease : ℕ) → RunLedger → RunBudget → (first second : ℕ) → Result ℕ
grant id lease ledger budget first second = elim (exhaustion ledger budget first) [
  | some reason ↦ err (harness (HarnessError.run_not_permitted (exhausted id reason)))
  | none ↦ elim (remaining_seconds ledger budget second) [
    | none ↦ ok lease
    | some left ↦
        if leb_ℤ left (pos 0)
        then err (harness (HarnessError.run_not_permitted (no_time_left id)))
        else ok (min lease (pos_part left))
  ]
]

-- `settle`, under the lock of `release`
unfoldable pub settle : Source → (id worker : String) → TaskOutcome → Exec World (Unit {0})
settle source id worker outcome w = elim (find_first (has_id id) (current source w)) [
  | none ↦ (err (harness (HarnessError.task_not_found id)), w)
  | some r ↦ elim (check_held id worker not_claimed r) [
    | err e ↦ (err e, w)
    | ok _ ↦ (
      ok tt,
      write_back source (update_first (has_id id) (settle_record outcome) (current source w)) w,
    )
  ]
]

-- `release`; of the task only its id is read
unfoldable pub release : Source → (id worker : String) → Supplied → Exec World (Unit {0})
unfolding settle
release source id worker outcome = do
  lift (require_identifier worker "worker")
  parsed ← lift (parse outcome)
  with_lock source.key (settle source id worker parsed)

-- `pending`, which takes no lock and writes nothing
unfoldable pub pending : Source → World → ℕ
pending source w = count is_todo (current source w)

module _ ⦃py : Python⦄ where
  append_batch : Source → List (String × Option String) → Exec World (List StoredTask)
  append_batch source items w = elim (append_each (records_of (stored_in source w)) items) [
    | err e ↦ (err e, w)
    | ok (grown, added) ↦ (ok added, write_back source grown w)
  ]

  -- `add_many`
  unfoldable pub add_many :
      Source → List String → Option (List String) → Exec World (List StoredTask)
  unfolding append_batch
  add_many source instructions ids = do
    raise_if (count_differs instructions ids)
        (value_error "instruction(s) were given id(s) of another number.")
    with_lock source.key (append_batch source (with_ids instructions ids))

  -- `[0]`
  abbrev first_added : List StoredTask → Exec World StoredTask
  first_added [] = raise (value_error "list index out of range")
  first_added (t ∷ _) = pure t

  abbrev one_id : Option String → Option (List String)
  one_id none = none
  one_id (some id) = some (id ∷ [])

  -- `add`
  unfoldable pub add : Source → (instruction : String) → Option String → Exec World StoredTask
  unfolding add_many
  add source instruction id = do
    added ← add_many source (instruction ∷ []) (one_id id)
    first_added added

  abbrev found_task : Fields → Result (Option StoredTask)
  found_task r = elim (to_task r) [ ok t ↦ ok (some t) | err e ↦ err e ]

  -- `take`, under the lock of `claim`
  unfoldable pub take : Source → (worker : String) (lease : ℕ) → Exec World (Option StoredTask)
  take source worker lease w = elim (find_first is_todo (current source w)) [
    | none ↦ (ok none, if lapsed_any source w then write_back source (current source w) w else w)
    | some target ↦ (
      found_task (claim_record worker w.clock lease target),
      write_back source
          (update_first is_todo (claim_record worker w.clock lease) (current source w)) w,
    )
  ]

  -- `claim`
  unfoldable pub claim :
      Source → (worker : String) → Option Seconds → Exec World (Option StoredTask)
  unfolding take
  claim source worker seconds = do
    lift (require_identifier worker "worker")
    lease ← lift (lease_or source seconds)
    with_lock source.key (take source worker lease)

  -- `records`, which takes no lock and writes nothing
  unfoldable pub records : Source → World → Result (List StoredTask)
  records source w = traverse to_task (current source w)

  -- `find`
  unfoldable pub find : Source → (id : String) → Exec World (Option StoredTask)
  unfolding records
  find source id = do
    all ← (λ w. (records source w, w))
    pure (find_first (λ t. str_eq t.id id) all)

  -- `hold`, under the lock of `extend_lease`
  unfoldable pub hold : Source → (id worker : String) (granted : ℕ) → Exec World StoredTask
  hold source id worker granted w = elim (find_first (has_id id) (current source w)) [
    | none ↦ (err (harness (HarnessError.task_not_found id)), w)
    | some r ↦ elim (check_held id worker expired r) [
      | err e ↦ (err e, w)
      | ok _ ↦ (
        to_task (hold_record w.clock granted r),
        write_back source
            (update_first (has_id id) (hold_record w.clock granted) (current source w)) w,
      )
    ]
  ]

  -- `extend_lease`
  unfoldable pub extend_lease :
      Source
      → (id worker : String) → RunLedger
      → RunBudget
      → (first second : ℕ) → Option Seconds
      → Exec World StoredTask
  unfolding hold grant
  extend_lease source id worker ledger budget first second seconds = do
    lift (require_identifier worker "worker")
    lease ← lift (lease_or source seconds)
    granted ← lift (grant id lease ledger budget first second)
    with_lock source.key (hold source id worker granted)
