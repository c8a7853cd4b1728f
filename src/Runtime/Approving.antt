-- ===== src/Runtime/Approving.antt =====
-- Resolving approvals runs each call that was approved, once and in order, and no other.
use prism_harness_py.Prelude.{
  String, Bool, false, Option, none, some, List, [], ◌∷◌, ◌++◌, map, if◌then◌else◌,
}
use prism_harness_py.Python.{Python}
use prism_harness_py.Exec.{Exec, pure, ◌>>=◌}
use prism_harness_py.ThreadRows.Rows.{ToolCallInput, ResultEntry, Decision, tool_result_entry}
use prism_harness_py.Runtime.Data.{HarnessTool, Machine, Outside}
use prism_harness_py.Runtime.Resolving.{Work, run_approved, remade, decided, denial}

abbrev approves : Option Decision → Bool
approves none = false
approves (some d) = d.approved

abbrev approved_of : Option Decision → ToolCallInput → List ToolCallInput → List ToolCallInput
approved_of d call rest = if approves d then call ∷ rest else rest

-- The calls of which the own decision approves, in order.
abbrev pub approved_calls : Work → List ToolCallInput → List ToolCallInput
approved_calls work [] = []
approved_calls work (call ∷ calls) =
    approved_of (decided work call) call (approved_calls work calls)

-- Calls made one after the other, each once.
abbrev pub run_all :
    ⦃py : Python⦄
    → Outside
    → List HarnessTool
    → List ToolCallInput
    → Exec Machine (List ResultEntry)
run_all out bounded [] = pure []
run_all out bounded (call ∷ calls) = do
  entry ← run_approved out bounded (remade call)
  rest ← run_all out bounded calls
  pure (entry ∷ rest)

-- What is answered to a call that is not run.
abbrev unapproved : ToolCallInput → Option Decision → ResultEntry
unapproved call none = tool_result_entry (remade call) "No approval response provided"
unapproved call (some decision) = tool_result_entry (remade call) (denial decision.reason)

abbrev taken : (List ResultEntry → List ResultEntry) → List ResultEntry → List ResultEntry
taken more [] = []
taken more (entry ∷ entries) = entry ∷ more entries

abbrev placed_of :
    Option Decision
    → ToolCallInput
    → (List ResultEntry → List ResultEntry)
    → List ResultEntry
    → List ResultEntry
placed_of d call more entries =
    if approves d then taken more entries else unapproved call d ∷ more entries

-- The entries of the calls that ran, put in the places of their calls among the others' refusals.
abbrev pub placed : Work → List ToolCallInput → List ResultEntry → List ResultEntry
placed work [] entries = []
placed work (call ∷ calls) entries = placed_of (decided work call) call (placed work calls) entries

abbrev pub names_of : List ToolCallInput → List String
names_of calls = map (λ c. c.name) calls

abbrev told :
    List String
    → (List ResultEntry → List ResultEntry)
    → List ResultEntry
    → Exec Machine (List String × List ResultEntry)
told names place entries = pure (names, place entries)

module _ (more : Exec Machine (List String × List ResultEntry))
    (runs : Exec Machine (List ResultEntry)) (names : List String)
    (place : List ResultEntry → List ResultEntry) where
  module _ (one : Exec Machine ResultEntry) (name : String) where
    abbrev named : ResultEntry → Exec Machine (List String × ResultEntry)
    named entry = pure (name ∷ [], entry)

    abbrev followed : ResultEntry → Exec Machine (List ResultEntry)
    followed entry = runs >>= λ rest. pure (entry ∷ rest)

    abbrev tells : List ResultEntry → Exec Machine (List String × List ResultEntry)
    tells entries = pure (name ∷ names, taken place entries)

    abbrev goes_on : List String × ResultEntry → Exec Machine (List String × List ResultEntry)
    goes_on first = more >>= λ rest. pure (first.0 ++ rest.0, first.1 ∷ rest.1)

module _ ⦃py : Python⦄ (out : Outside) (bounded : List HarnessTool) (work : Work) where
  abbrev told_of : (calls : List ToolCallInput) → Exec Machine (List String × List ResultEntry)
  told_of calls =
      run_all out bounded (approved_calls work calls)
      >>= told (names_of (approved_calls work calls)) (placed work calls)
