-- ===== src/Tasks/Listing.antt =====
-- The list of stored records: reading it, the searches and updates in it, and the loop of `add_many`.
use Prim.Native.String
use prism_harness_py.Prelude.{
  ℕ, suc, ◌+◌, String, Bool, true, false, Option, none, some, List, [], ◌∷◌, ◌++◌, any, length, not,
  ◌==◌, if◌then◌else◌,
}
use prism_harness_py.Prelude.Int.{pos}
use prism_harness_py.Value.{Value, int, arr, Fields, get, is_text, dicts, to_list}
use prism_harness_py.Errors.{harness, HarnessError, NotHeld, held_by}
use prism_harness_py.Result.{Result, ok, ◌>>=◌, ◌>>◌, raise_if}
use prism_harness_py.Python.{Python}
use prism_harness_py.Tasks.State.{TaskState, claimed, value, is_terminal}
use prism_harness_py.Tasks.Record.{StoredTask, state_of, to_task, new_record}
use prism_harness_py.Tasks.Lease.{require_identifier}

module _ {ℓ} {A : Type ℓ} where
  -- `next((entry for entry in entries if p(entry)), None)`
  unfoldable pub find_first : (A → Bool) → List A → Option A
  find_first p [] = none
  find_first p (x ∷ xs) = if p x then some x else find_first p xs

  -- An assignment to the entry that `find_first` finds.
  unfoldable pub update_first : (A → Bool) → (A → A) → List A → List A
  update_first p f [] = []
  update_first p f (x ∷ xs) = if p x then f x ∷ xs else x ∷ update_first p f xs

  unfoldable pub count : (A → Bool) → List A → ℕ
  count p [] = 0
  count p (x ∷ xs) = if p x then suc (count p xs) else count p xs

module _ {ℓ κ} {A : Type ℓ} {B : Type κ} where
  unfoldable pub traverse : (A → Result B) → List A → Result (List B)
  traverse f [] = ok []
  traverse f (x ∷ xs) = do y ← f x; ys ← traverse f xs; ok (y ∷ ys)

abbrev pub is_todo : Fields → Bool
is_todo r = is_text (get "state" r) "todo"

abbrev pub has_id : String → Fields → Bool
has_id id r = is_text (get "id" r) id

-- `state is not TaskState.CLAIMED`
abbrev pub not_claim : TaskState → Bool
not_claim claimed = false
not_claim _ = true

abbrev entries_of : Option Value → List Fields
entries_of (some (arr vs)) = dicts (to_list vs)
entries_of _ = []

-- The second part of `_read`.
abbrev pub records_of : Fields → List Fields
records_of stored = entries_of (get "tasks" stored)

-- Each instruction with its id, if ids were given.
abbrev pub with_ids : List String → Option (List String) → List (String × Option String)
with_ids [] ids = []
with_ids (i ∷ is) none = (i, none) ∷ with_ids is none
with_ids (i ∷ is) (some []) = []
with_ids (i ∷ is) (some (t ∷ ts)) = (i, some t) ∷ with_ids is (some ts)

abbrev pub count_differs : List String → Option (List String) → Bool
count_differs instructions none = false
count_differs instructions (some ids) = not (length ids == length instructions)

module _ ⦃py : Python⦄ where
  abbrev pub chosen_id : List Fields → Option String → String
  chosen_id records none = String.◌++◌ "t-" (py.show (int (pos (length records + 1))))
  chosen_id records (some id) = id

  -- The loop of `add_many`: the list as it grows, and the tasks that were added.
  unfoldable pub append_each :
      List Fields → List (String × Option String) → Result (List Fields × List StoredTask)
  append_each records [] = ok (records, [])
  append_each records ((instruction, given) ∷ rest) = do
    require_identifier (chosen_id records given) "task"
    raise_if (any (has_id (chosen_id records given)) records)
        (harness (HarnessError.duplicate_task_id (chosen_id records given)))
    task ← to_task (new_record (chosen_id records given) instruction)
    (grown, added) ←
        append_each (records ++ (new_record (chosen_id records given) instruction ∷ [])) rest
    ok (grown, task ∷ added)

-- The checks of `release` and `extend_lease` on the record they located: it is claimed, and by this
-- worker. The two phrase an unclaimed task differently.
unfoldable pub check_held : (id worker : String) → NotHeld → Fields → Result (Unit {0})
check_held id worker unclaimed r = do
  s ← state_of r
  raise_if (is_terminal s) (harness (HarnessError.task_already_terminal id (value s)))
  raise_if (not_claim s) (harness (HarnessError.task_lease_not_held id unclaimed))
  raise_if (not (is_text (get "claimed_by" r) worker))
      (harness (HarnessError.task_lease_not_held id (held_by (get "claimed_by" r) worker)))
