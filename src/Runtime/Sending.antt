-- ===== src/Runtime/Sending.antt =====
-- `_turn`, `send` and `send_structured`: what a turn does with an error, and the whole of it. The loop
-- is on fuel, so a turn that has too little of it gives none.
use prism_harness_py.Prelude.{ℕ, String, Option, none, some, List}
use prism_harness_py.Value.{Fields}
use prism_harness_py.Errors.{Error, harness, HarnessError, assertion_error}
use prism_harness_py.Python.{Python}
use prism_harness_py.Result.{Result, ok, err}
use prism_harness_py.Exec.{Exec, pure, raise, modify, ◌>>=◌, ◌>>◌}
use prism_harness_py.Session.{fail_run}
use prism_harness_py.Tools.Authorizer.{ToolAuthorizer, AgentOptions, authorized_handle}
use prism_harness_py.Runtime.Data.{AgentResponse, Event, run_failed, Machine, Outside, Turn}
use prism_harness_py.Runtime.Steps.{on_session, emit}
use prism_harness_py.Runtime.Offering.{AgentRuntime, scoped}
use prism_harness_py.Runtime.Turning.{prepare}
use prism_harness_py.Runtime.Opening.{Sent, Setup, set_up, begin}
use prism_harness_py.Runtime.Loop.{loop}

-- What a run row and an event say of an error: the code of one that holds a document, and the text of
-- any other.
abbrev pub failure_text : (error_text : Error → String) → Error → String
failure_text error_text (harness (HarnessError.structured_unreadable _)) = "structured_unreadable"
failure_text error_text (harness (HarnessError.structured_schema_violation _ _)) =
    "structured_schema_violation"
failure_text error_text e = error_text e

abbrev pub failed_event : Setup → (failure : String) → Machine → Event
failed_event s failure m = run_failed s.run_id m.session.key failure m.ledger.steps

abbrev pub fail_session : Outside → Setup → (failure : String) → Exec Machine (Unit {0})
fail_session out s failure m = on_session (fail_run s.run_id failure (out.stamp m.clock)) m

-- The `except` block.
unfoldable pub fail : Outside → Setup → Error → Exec Machine AgentResponse
fail out s e = do
  fail_session out s (failure_text out.error_text e)
  modify (λ m. emit (failed_event s (failure_text out.error_text e) m) m)
  raise e

abbrev pub caught :
    Outside
    → Setup
    → Option (Result AgentResponse × Machine)
    → Option (Result AgentResponse × Machine)
caught out s none = none
caught out s (some (ok response, m)) = some (ok response, m)
caught out s (some (err e, m)) = some (fail out s e m)

abbrev pub loop_from :
    ⦃py : Python⦄
    → Outside
    → (fuel : ℕ) → Result (Turn × List String) × Machine
    → Option (Result AgentResponse × Machine)
loop_from out fuel (err e, m) = some (err e, m)
loop_from out fuel (ok (t, called), m) = loop out t fuel called m

-- A run that has begun.
abbrev pub begun :
    ⦃py : Python⦄
    → Outside
    → AgentRuntime
    → Sent
    → (fuel : ℕ) → Result Setup × Machine
    → Option (Result AgentResponse × Machine)
begun out rt sent fuel (err e, m) = some (err e, m)
begun out rt sent fuel (ok s, m) = caught out s (loop_from out fuel (prepare out rt sent s m))

abbrev pub start : ⦃py : Python⦄ → Outside → AgentRuntime → Sent → Exec Machine Setup
start out rt sent = do s ← set_up out rt sent; begin out s; pure s

-- `_turn`, with tools that do just what `out` says
unfoldable pub turn_with :
    ⦃py : Python⦄
    → Outside
    → AgentRuntime
    → Sent
    → (fuel : ℕ) → Machine
    → Option (Result AgentResponse × Machine)
unfolding set_up begin prepare fail
turn_with out rt sent fuel m = begun out rt sent fuel (start out rt sent m)

abbrev pub guarded_by : Outside → Result (ToolAuthorizer Machine) → Outside
guarded_by out (err e) = out
guarded_by out (ok a) = record out { handle = authorized_handle Machine a out.handle }

-- What tools do under the agent's authorizer: a tool that it wrapped asks it first.
abbrev pub guarded :
    Outside
    → Option String
    → Option (ToolAuthorizer Machine × List (String × AgentOptions Machine))
    → Outside
guarded out agent none = out
guarded out agent (some root) = guarded_by out (scoped agent root)

-- `_turn`, which is `send` of what is sent without a schema
unfoldable pub turn :
    ⦃py : Python⦄
    → Outside
    → AgentRuntime
    → Sent
    → (fuel : ℕ) → Machine
    → Option (Result AgentResponse × Machine)
unfolding turn_with
turn out rt sent = turn_with (guarded out rt.agent rt.authorizer) rt sent

abbrev is_structured : AgentResponse → Result AgentResponse
is_structured response = elim response.structured [
  | none ↦ err (assertion_error "")
  | some document ↦ ok response
]

abbrev asserted : Option (Result AgentResponse × Machine) → Option (Result AgentResponse × Machine)
asserted none = none
asserted (some (err e, m)) = some (err e, m)
asserted (some (ok response, m)) = some (is_structured response, m)

-- `send_structured`: the assertion refuses every response that is no `StructuredAgentResponse`, such as
-- one that waits for a person.
unfoldable pub send_structured :
    ⦃py : Python⦄
    → Outside
    → AgentRuntime
    → Sent
    → (schema : Fields) → (fuel : ℕ) → Machine
    → Option (Result AgentResponse × Machine)
unfolding turn
send_structured out rt sent schema fuel m =
    asserted (turn out rt (record sent { schema = some schema }) fuel m)
