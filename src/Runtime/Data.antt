-- ===== src/Runtime/Data.antt =====
-- What a run is given, asks and returns, and the machine that it changes: the session over its
-- stores, the ledger that its tree shares, the events, the clock, and the ids that were drawn.
use prism_harness_py.Prelude.{ℕ, String, Option, List}
use prism_harness_py.Prelude.Int.{ℤ}
use prism_harness_py.Value.{Value, Fields, Items}
use prism_harness_py.Errors.{Error, Exhaustion}
use prism_harness_py.Exec.{Exec}
use prism_harness_py.Session.{Session}
pub use prism_harness_py.Prelude.Assoc.{is_in}
pub use prism_harness_py.Tools.Tool.{HarnessTool}
pub use prism_harness_py.Modes.Mode.{AgentMode}
unfoldable pub use prism_harness_py.Modes.Mode.{needs_approval}
use prism_harness_py.Structured.Check.{Problem}
use prism_harness_py.Subagents.{RunBudget, RunLedger}
use prism_harness_py.ThreadRows.Rows.{ToolCallInput, Row}

pub record LlmToolCall : Type 0 where
  pub id : String
  pub name : String
  pub arguments : Fields
  pub result_id : Option String
  pub reasoning_id : Option String
  pub reasoning_summary : Option Items

pub record LlmRequest : Type 0 where
  pub system_prompt : String
  pub messages : List Row
  pub tools : List HarnessTool
  pub provider : String
  pub model : String
  pub provider_options : Fields
  pub schema : Option Fields
  pub max_output_tokens : Option ℕ

-- `structured` is null where the source has None.
pub record LlmResponse : Type 0 where
  pub text : String
  pub finish_reason : String
  pub tool_calls : List LlmToolCall
  pub cost_usd : Option ℤ
  pub additional_content : Fields
  pub structured : Value

pub record PendingApproval : Type 0 where
  pub id : String
  pub tool : String
  pub arguments : Fields
  pub tool_call_id : String

-- `AgentResponse`, and `StructuredAgentResponse` where `structured` is there.
pub record AgentResponse : Type 0 where
  pub run_id : String
  pub text : String
  pub steps : ℕ
  pub tool_calls : List String
  pub finish_reason : String
  pub pending_approvals : List PendingApproval
  pub stopped_because : Option Exhaustion
  pub structured : Option Value

-- `RunStarted`, `RunFinished` and `RunFailed` (events.py), without their times. A cost of none is one that is not known.
pub data Event : Type 0 where
  run_started : (run_id session_key mode provider model root_run_id : String) (depth : ℕ) → Event
  run_finished :
      (run_id session_key finish_reason : String) (tool_calls : List String) (steps : ℕ)
      → (cost_usd : Option ℤ) → Event
  run_failed : (run_id session_key failure : String) (steps : ℕ) → Event

pub record Machine : Type 0 where
  pub session : Session
  pub ledger : RunLedger
  pub events : List Event
  pub clock : ℕ
  pub drawn : ℕ

-- What is not this library's: the client, what a tool does with its arguments, the text of an
-- exception and of a problem with a document, a time and the n-th random id as text.
pub record Outside : Type 0 where
  pub client : LlmRequest → Exec Machine LlmResponse
  pub handle : HarnessTool → Fields → Exec Machine Value
  pub error_text : Error → String
  pub describe : Problem → String
  pub stamp : ℕ → String
  pub hex : ℕ → String

-- What stays the same while a run loops.
pub record Turn : Type 0 where
  pub mode : AgentMode
  pub budget : RunBudget
  pub run_id : String
  pub provider : String
  pub model : String
  pub offered : List HarnessTool
  pub schema : Option Fields

-- What a run carries from one step to the next.
pub record Progress : Type 0 where
  pub called : List String
  pub text : String

pub data Next : Type 0 where
  done : AgentResponse → Next
  again : Progress → Next

-- `_call_input`
abbrev pub call_input : LlmToolCall → ToolCallInput
call_input call = record {
  id = call.id;
  name = call.name;
  arguments = call.arguments;
  result_id = call.result_id;
  reasoning_id = call.reasoning_id;
  reasoning_summary = call.reasoning_summary;
}
