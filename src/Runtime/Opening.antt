-- ===== src/Runtime/Opening.antt =====
-- `_turn` until its run has begun.
use prism_harness_py.Prelude.{
  ℕ, ◌+◌, String, Bool, not, Option, none, some, List, if◌then◌else◌, str_eq,
}
use prism_harness_py.Value.{Value, str, Fields, get}
use prism_harness_py.Errors.{Error, harness, HarnessError, NotPermitted}
use prism_harness_py.Python.{Python}
use prism_harness_py.Result.{ok}
use prism_harness_py.Exec.{Exec, pure, raise_if, lift, gets, modify, ◌>>=◌, ◌>>◌}
use prism_harness_py.Session.{Session, assert_writable, begin_run, fail_run}
use prism_harness_py.Session
use prism_harness_py.Subagents.{RunBudget, RunContext, root, too_deep}
use prism_harness_py.Attachments.{Attachment, admit_attachments}
use prism_harness_py.Modes.Resolution
use prism_harness_py.Runtime.Data.{AgentMode, Event, run_started, Machine, Outside}
use prism_harness_py.Runtime.Steps.{on_session, emit}
use prism_harness_py.Runtime.Settings.{bounded_run}
use prism_harness_py.Runtime.Offering.{AgentRuntime, settings}

-- The arguments of a send.
pub record Sent : Type 0 where
  pub prompt : String
  pub tool_names : Option (List String)
  pub context : Option RunContext
  pub additional_content : List Attachment
  pub schema : Option Fields

abbrev is_truthy : String → Bool
is_truthy s = not (str_eq s "")

abbrev configured : Option Value → String
configured (some (str s)) = if is_truthy s then s else "unknown"
configured _ = "unknown"

-- `own or options.get(key) or "unknown"`
abbrev own_or : Option String → Option Value → String
own_or none option = configured option
own_or (some own) option = if is_truthy own then own else configured option

abbrev mode_budget : AgentMode → RunBudget
mode_budget mode = record {
  max_steps = mode.max_steps;
  max_cost_usd = none;
  max_seconds = none;
  max_output_tokens_per_call = none;
}

-- `context or RunContext.root(run_id, RunBudget(mode.max_steps))`
abbrev pub context_or : Option RunContext → (run_id : String) → AgentMode → (now : ℕ) → RunContext
context_or (some context) run_id mode now = context
context_or none run_id mode now = root run_id (mode_budget mode) now

-- What is settled before a run begins.
pub record Setup : Type 0 where
  pub attachments : List Fields
  pub mode : AgentMode
  pub provider : String
  pub model : String
  pub run_id : String
  pub run : RunContext

-- `str(uuid.uuid4())`
abbrev pub draw : Outside → Exec Machine String
draw out m = (ok (out.hex m.drawn), record m { drawn = m.drawn + 1 })

-- The ledger of the run's tree is the one that its steps are charged to.
abbrev pub adopt : RunContext → Exec Machine (Unit {0})
adopt run = modify (λ m. record m { ledger = run.ledger })

abbrev pub nested_too_deep : Error
nested_too_deep =
    harness (HarnessError.run_not_permitted (NotPermitted.refused "nested at or past the ceiling"))

-- `self._modes.for_agent(session.agent).resolve(session.mode())`
abbrev pub choose_mode : AgentRuntime → Exec Machine AgentMode
choose_mode rt = do wanted ← on_session Session.mode; lift (Resolution.resolve wanted rt.modes)

abbrev pub draw_run :
    Outside → AgentRuntime → Option RunContext → AgentMode → Exec Machine (String × RunContext)
draw_run out rt context mode = do
  run_id ← draw out
  now ← gets (λ m. m.clock)
  pure (run_id, bounded_run (settings rt) (context_or context run_id mode now))

-- `session.thread()`, and the ceiling of the depth
abbrev pub check_run : RunContext → Exec Machine (Unit {0})
check_run run = on_session assert_writable >> raise_if (too_deep run) nested_too_deep

abbrev pub setup_of :
    AgentRuntime
    → List Fields
    → AgentMode
    → (provider model : Option String) → String × RunContext
    → Setup
setup_of rt attachments mode provider model (run_id, run) = record {
  attachments = attachments;
  mode = mode;
  provider = own_or provider (get "provider" (settings rt));
  model = own_or model (get "model" (settings rt));
  run_id = run_id;
  run = run;
}

abbrev pub settle :
    Outside
    → AgentRuntime
    → Option RunContext
    → List Fields
    → AgentMode
    → (provider model : Option String) → Exec Machine Setup
settle out rt context attachments mode provider model = do
  drawn ← draw_run out rt context mode
  check_run drawn.1
  pure (setup_of rt attachments mode provider model drawn)

abbrev pub set_up_run :
    Outside → AgentRuntime → Option RunContext → List Fields → AgentMode → Exec Machine Setup
set_up_run out rt context attachments mode = do
  provider ← on_session Session.provider
  model ← on_session Session.model
  settle out rt context attachments mode provider model

-- What comes before `begin_run`.
unfoldable pub set_up : ⦃py : Python⦄ → Outside → AgentRuntime → Sent → Exec Machine Setup
set_up out rt sent = do
  attachments ← lift (admit_attachments sent.prompt sent.additional_content)
  mode ← choose_mode rt
  set_up_run out rt sent.context attachments mode

abbrev pub started_event : Setup → Machine → Event
started_event s m =
    run_started s.run_id m.session.key s.mode.name s.provider s.model s.run.ledger.root_run_id
      s.run.depth

abbrev pub begin_session : Outside → Setup → Exec Machine (Unit {0})
begin_session out s m =
    on_session (begin_run s.run_id s.mode.name s.provider s.model (out.stamp m.clock)) m

-- `begin_run`, and `RunStarted`
unfoldable pub begin : Outside → Setup → Exec Machine (Unit {0})
begin out s = do adopt s.run; begin_session out s; modify (λ m. emit (started_event s m) m)
