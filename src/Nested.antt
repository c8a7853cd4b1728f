-- ===== src/Nested.antt =====
-- src/prism_harness/subagent_runner.py: a nested agent, as a tool that its parent's run calls. The
-- child is a session of the same stores, so what the machine has for a session while the child runs is
-- the child's, and the parent's comes back after it. The stores have no address index around them; those
-- of an agent with a name have one, which may refuse the first put to the child.
use prism_harness_py.Prelude.{
  ℕ, ◌+◌, String, Bool, true, false, not, ◌&&◌, ◌||◌, Option, none, some, List, [], if◌then◌else◌,
  str_eq,
}
use Prim.Native.String.{◌++◌}
use prism_harness_py.Value.{Value, str, Fields, end, field, get}
use prism_harness_py.Errors.{Error, harness, HarnessError, NotPermitted, Exhaustion}
use prism_harness_py.Python.{Python}
use prism_harness_py.Result.{Result, ok, err}
use prism_harness_py.Exec.{Exec, pure, ◌>>=◌, ◌>>◌}
use prism_harness_py.Session.{Session, using_mode, using_provider, using_model}
use prism_harness_py.Session
use prism_harness_py.Subagents.{Subagent, RunContext, exhaustion, for_child, scope_under, too_deep}
use prism_harness_py.Runtime.Data.{AgentResponse, Machine, Outside}
use prism_harness_py.Runtime.Offering.{AgentRuntime, is_named}
use prism_harness_py.Runtime.Opening.{Sent}
use prism_harness_py.Runtime.Sending.{turn}
pub mod Framing
mod Tests

pub record SubagentResult : Type 0 where
  pub subagent : String
  pub run_id : String
  pub parent_run_id : String
  pub outcome : String
  pub text : String

-- The parent of a nested run: the key of its participant's session with another scope, and the text of
-- an exhaustion, beside its scope and its context. The context's ledger is the machine's.
pub record Parent : Type 0 where
  pub scope : String
  pub key_of : (scope : String) → String
  pub context : RunContext
  pub run_id : String
  pub show : Exhaustion → String

-- `_refused`
abbrev pub refused : Subagent → (run_id parent_run_id outcome reason : String) → SubagentResult
refused subagent run_id parent_run_id outcome reason = record {
  subagent = subagent.name;
  run_id = run_id;
  parent_run_id = parent_run_id;
  outcome = outcome;
  text = "The [" ++ (subagent.name ++ ("] subagent did not run: " ++ (reason ++ ".")));
}

abbrev pub with_stores : Session → Session → Session
with_stores from s = record s { ephemeral = from.ephemeral; durable = from.durable }

-- The parent's session and the child's, over the same stores.
abbrev pub as_child : {A : Type 0} → Exec Session A → Exec (Session × Session) A
as_child f (parent, child) = let (r, after) = f child in (r, (with_stores after parent, after))

abbrev pub as_parent : {A : Type 0} → Exec Session A → Exec (Session × Session) A
as_parent f (parent, child) = let (r, after) = f parent in (r, (after, with_stores after child))

abbrev pub child_of : Parent → Subagent → Session → Session
child_of parent subagent s = record {
  key = parent.key_of (scope_under subagent parent.scope);
  ephemeral = s.ephemeral;
  durable = s.durable;
  cached = none;
  resolution_only = false;
  resolved_mode = none;
}

-- `own or "unknown"`, unless a named agent's parent has none
abbrev pub inherited : (agent own : Option String) → Option String
inherited none none = some "unknown"
inherited (some _) none = none
inherited agent (some own) = some (if str_eq own "" then "unknown" else own)

abbrev pub using : (String → Exec Session (Unit {0})) → Option String → Exec Session (Unit {0})
using f none = pure tt
using f (some name) = f name

abbrev pub settle_names :
    (agent provider model : Option String) → Exec (Session × Session) (Unit {0})
settle_names agent provider model = do
  as_child (using using_provider (inherited agent provider))
  as_child (using using_model (inherited agent model))

abbrev pub settle_provider : (agent provider : Option String) → Exec (Session × Session) (Unit {0})
settle_provider agent provider = do
  model ← as_parent Session.model
  settle_names agent provider model

abbrev pub settle_child : (agent : Option String) → Subagent → Exec (Session × Session) (Unit {0})
settle_child agent subagent = do
  as_child (using_mode subagent.mode)
  provider ← as_parent Session.provider
  settle_provider agent provider

abbrev stopped_early : (show : Exhaustion → String) → Subagent → AgentResponse → Exhaustion → String
stopped_early show subagent response why =
    "The ["
    ++ (subagent.name
        ++ ("] subagent stopped early: " ++ (show why ++ (". Partial answer: " ++ response.text))))

abbrev pub answered : Parent → Subagent → AgentResponse → SubagentResult
answered parent subagent response = elim response.stopped_because [
  | none ↦ record {
    subagent = subagent.name;
    run_id = response.run_id;
    parent_run_id = parent.run_id;
    outcome = "completed";
    text = response.text;
  }
  | some why ↦ record {
    subagent = subagent.name;
    run_id = response.run_id;
    parent_run_id = parent.run_id;
    outcome = "exhausted";
    text = stopped_early parent.show subagent response why;
  }
]

-- What is handed to the parent of how the child ended, with its own session over the stores again.
abbrev pub framed :
    Outside
    → Parent
    → Subagent
    → (run_id : String) → (parent_session : Session) → Option (Result AgentResponse × Machine)
    → Option (Result SubagentResult × Machine)
framed out parent subagent run_id s none = none
framed out parent subagent run_id s (some (ok response, m)) =
    some (ok (answered parent subagent response), record m { session = with_stores m.session s })
framed out parent subagent run_id s (some (err e, m)) = some (
  ok (refused subagent run_id parent.run_id "failed" (out.error_text e)),
  record m { session = with_stores m.session s },
)

abbrev pub child_sent : RunContext → (task : String) → Sent
child_sent context task = record {
  prompt = task;
  tool_names = none;
  context = some context;
  additional_content = [];
  schema = none;
}

module _ ⦃py : Python⦄ (out : Outside) (rt : AgentRuntime) (parent : Parent)
    (subagent : Subagent) where
  abbrev pub spawned :
      RunContext
      → (run_id task : String) → (fuel : ℕ) → Machine
      → Result (Unit {0}) × (Session × Session)
      → Option (Result SubagentResult × Machine)
  spawned context run_id task fuel m (err e, (own, child)) =
      some (err e, record m { session = own })
  spawned context run_id task fuel m (ok _, (own, child)) =
      framed out parent subagent run_id own
        (turn out rt (child_sent context task) fuel (record m { session = child }))

  abbrev pub context_of : Machine → RunContext
  context_of m =
      for_child (record parent.context { ledger = m.ledger }) subagent parent.run_id m.clock

  abbrev pub spawn :
      (run_id task : String) → (fuel : ℕ) → Machine → Option (Result SubagentResult × Machine)
  spawn run_id task fuel m =
      spawned (context_of m) run_id task fuel m
        (settle_child rt.agent subagent (m.session, child_of parent subagent m.session))

  abbrev pub refuse :
      (run_id outcome reason : String) → Machine → Option (Result SubagentResult × Machine)
  refuse run_id outcome reason m =
      some (ok (refused subagent run_id parent.run_id outcome reason), m)

  abbrev pub unless_too_deep :
      (run_id task : String) → (fuel : ℕ) → Machine → Option (Result SubagentResult × Machine)
  unless_too_deep run_id task fuel m =
      if too_deep (context_of m)
      then refuse run_id "denied" "subagent nesting reached the maximum depth of 4" m
      else spawn run_id task fuel m

  abbrev pub unless_exhausted :
      (run_id task : String) → (fuel : ℕ) → Machine → Option (Result SubagentResult × Machine)
  unless_exhausted run_id task fuel m = elim (exhaustion m.ledger parent.context.budget m.clock) [
    | some why ↦
        refuse run_id (if m.ledger.cancelled then "cancelled" else "exhausted") (parent.show why) m
    | none ↦ unless_too_deep run_id task fuel m
  ]

  -- `SubagentRunner.run`
  unfoldable pub run :
      (task : String) (fuel : ℕ) → Machine → Option (Result SubagentResult × Machine)
  run task fuel m =
      unless_exhausted ("run_" ++ out.hex m.drawn) task fuel (record m { drawn = m.drawn + 1 })

  abbrev pub only_task : Fields → Bool
  only_task end = true
  only_task (field key value rest) = str_eq key "task" && only_task rest

  abbrev pub task_in : Option Value → String
  task_in (some (str task)) = task
  task_in _ = ""

  abbrev pub identity_change : Error
  identity_change = harness (HarnessError.run_not_permitted (NotPermitted.refused "only task"))

  abbrev pub tool_result :
      Option (Result SubagentResult × Machine) → Option (Result String × Machine)
  tool_result none = none
  tool_result (some (ok result, m)) = some (ok result.text, m)
  tool_result (some (err e, m)) = some (err e, m)

  -- `SubagentTool.handle`
  unfoldable pub handle : Fields → (fuel : ℕ) → Machine → Option (Result String × Machine)
  unfolding run
  handle args fuel m =
      if is_named rt.agent && not (only_task args)
      then some (err identity_change, m)
      else tool_result (run (task_in (get "task" args)) fuel m)
