-- ===== src/Tasks/State.antt =====
-- `TaskState`, `TaskOutcome` and the strict reading of an outcome.
use prism_harness_py.Prelude.{String, Bool, true, false, Option, none, some, str_eq, if◌then◌else◌}
use prism_harness_py.Value.{Value, str}
use prism_harness_py.Errors.{harness, HarnessError}
use prism_harness_py.Result.{Result, ok, err}

pub data TaskState : Type 0 where
  todo claimed done failed : TaskState

pub data TaskOutcome : Type 0 where
  done failed : TaskOutcome

-- `state.value`
abbrev pub value : TaskState → String
value todo = "todo"
value claimed = "claimed"
value TaskState.done = "done"
value TaskState.failed = "failed"

abbrev pub is_terminal : TaskState → Bool
is_terminal TaskState.done = true
is_terminal TaskState.failed = true
is_terminal _ = false

-- `TaskState(text)`, which raises for any other text
unfoldable pub state_of_text : String → Option TaskState
state_of_text s =
    if str_eq s "todo"
    then some todo
    else if str_eq s "claimed"
    then some claimed
    else if str_eq s "done"
    then some TaskState.done
    else if str_eq s "failed"
    then some TaskState.failed
    else none

-- `TaskOutcome.state`
abbrev pub state : TaskOutcome → TaskState
state TaskOutcome.done = TaskState.done
state TaskOutcome.failed = TaskState.failed

-- What a caller supplies for an outcome: a member of the enum, or any other value. A member of
-- `TaskState` is a text to Python, its wire word.
pub data Supplied : Type 0 where
  member : TaskOutcome → Supplied
  plain : Value → Supplied

abbrev parse_text : String → Result TaskOutcome
parse_text s =
    if str_eq s "done"
    then ok TaskOutcome.done
    else if str_eq s "failed"
    then ok TaskOutcome.failed
    else err (harness HarnessError.task_outcome_invalid)

-- `TaskOutcome.parse`
unfoldable pub parse : Supplied → Result TaskOutcome
parse (member outcome) = ok outcome
parse (plain (str s)) = parse_text s
parse (plain _) = err (harness HarnessError.task_outcome_invalid)
