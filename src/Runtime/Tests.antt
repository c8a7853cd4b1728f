-- ===== src/Runtime/Tests.antt =====
-- A run of a mode with one gated tool, and each theorem at it.
use prism_harness_py.Structured.Conforms.{Conforms}
use prism_harness_py.Errors.{value_error}
use prism_harness_py.Structured.Check.{matches, schema_problems}
use prism_harness_py.Subagents.Nesting.{exhaustion-none}
use prism_harness_py.ThreadRows.View.{thread_view}
use prism_harness_py.Runtime.Settings.{bounded_run_within, bounded_run}
use prism_harness_py.Exec.{Exec}
use prism_harness_py.Runtime.Counting.{IsCounted}
use prism_harness_py.Runtime.Steps.{assert_document, finish, invoke}
use prism_harness_py.Prelude.{
  eq_iff, leb, str_eq, arith, if◌then◌else◌, suc, Option, String, refl, [], ◌∷◌, ◌≡◌, false, none,
  some,
}
use prism_harness_py.Prelude.Int.{◌<ℤ◌, ◌+ℤ◌, ◌-ℤ◌, pos_part, pos}
use prism_harness_py.Value.{Value, int, field, str, null, end, Fields}
use prism_harness_py.Python.{bytes, Python}
use prism_harness_py.Result.{err, Result, ok}
use prism_harness_py.Store.{World}
use prism_harness_py.Session.{Session}
use prism_harness_py.Subagents.{root, exhaustion, start, RunBudget}
use prism_harness_py.Runtime.Data.{
  needs_approval, AgentResponse, HarnessTool, LlmRequest, LlmResponse, LlmToolCall, AgentMode,
  Machine, Outside, Turn,
}
use prism_harness_py.Runtime.Loop.{run_calls, dispatch, answer, ask, step, steps, loop}
use prism_harness_py.Runtime.Halting.{loop_enough}
use prism_harness_py.Runtime.Gating.{loop-gated_unused, loop-client_unasked}
use prism_harness_py.Runtime.Documents.{loop-structured}
use prism_harness_py.Session.{complete_run}
use prism_harness_py.Thread.{messages, to_messages, record_messages, to_message}

abbrev pub plain_python : Python
plain_python = record { show = λ v. ""; json = λ v. "{}"; b64decode = λ s. bytes 1 }

abbrev empty : World
empty = record { entries = []; clock = 0; busy = λ key. false }

abbrev pub session : Session
session = record {
  key = "s";
  ephemeral = empty;
  durable = empty;
  cached = none;
  resolution_only = false;
  resolved_mode = none;
}

abbrev pub machine : Machine
machine = record { session = session; ledger = start "run" 0; events = []; clock = 0; drawn = 0 }

abbrev spent_machine : Machine
spent_machine = record machine { ledger = record machine.ledger { steps = 4 } }

abbrev pub budget : RunBudget
budget = record {
  max_steps = pos 4;
  max_cost_usd = none;
  max_seconds = none;
  max_output_tokens_per_call = none;
}

abbrev pub mode : AgentMode
mode = record {
  name = "chat";
  system_prompt = "";
  tools = "read" ∷ ("delete" ∷ []);
  max_steps = pos 4;
  skills = [];
  subagents = [];
  requires_approval = "delete" ∷ [];
  provider_options = end;
}

abbrev pub read : HarnessTool
read = record { name = "read"; identity = 0; wrappings = 0 }

abbrev pub delete : HarnessTool
delete = record { name = "delete"; identity = 1; wrappings = 0 }

abbrev turn : Turn
turn = record {
  mode = mode;
  budget = budget;
  run_id = "run";
  provider = "p";
  model = "m";
  offered = read ∷ (delete ∷ []);
  schema = none;
}

abbrev pub call : String → String → LlmToolCall
call id name = record {
  id = id;
  name = name;
  arguments = end;
  result_id = none;
  reasoning_id = none;
  reasoning_summary = none;
}

-- The model reads, and asks to delete.
abbrev deleting : LlmResponse
deleting = record {
  text = "";
  finish_reason = "tool_calls";
  tool_calls = call "a" "read" ∷ (call "b" "delete" ∷ []);
  cost_usd = none;
  additional_content = end;
  structured = null;
}

abbrev pub outside : Outside
outside = record {
  client = λ request m. (ok deleting, m);
  handle = λ tool args m. (ok (str "done"), m);
  error_text = λ e. "";
  describe = λ p. "";
  stamp = λ n. "";
  hex = λ n. "0";
}

abbrev nothing : AgentResponse
nothing = record {
  run_id = "";
  text = "";
  steps = 0;
  tool_calls = [];
  finish_reason = "";
  pending_approvals = [];
  stopped_because = none;
  structured = none;
}

abbrev reason_of : Option (Result AgentResponse × Machine) → String
reason_of (some (ok response, m)) = response.finish_reason
reason_of o = ""

loop-awaits : reason_of (loop ⦃py = plain_python⦄ outside turn 3 [] machine) ≡ "awaiting_approval"
unfolding loop steps step ask answer dispatch run_calls invoke finish exhaustion start messages
    to_messages thread_view record_messages needs_approval to_message
loop-awaits = refl

pub counted : IsCounted outside
counted = record { client = λ request m. omega arith; handle = λ tool args m. omega arith }

enough_example :
    (r : Result AgentResponse) × (n : Machine) × (loop ⦃py = plain_python⦄ outside turn
        (suc (pos_part (pos 4 -ℤ pos 0)))
        []
        machine
      ≡ some (r, n))
unfolding start
enough_example = loop_enough ⦃py = plain_python⦄ outside counted turn [] machine

-- Code that does nothing for any tool but the one that reads.
abbrev pub only_reads : HarnessTool → Fields → Exec Machine Value
only_reads tool args m =
    if str_eq tool.name "delete" then (err (value_error "deleted"), m) else (ok (str "done"), m)

only_reads-same :
    (tool : HarnessTool) (args : Fields) (n : Machine)
    → needs_approval mode tool.name ≡ false
    → only_reads tool args n ≡ outside.handle tool args n
unfolding needs_approval
only_reads-same tool args n free =
    ground (arith, eq_iff "delete" tool.name, eq_iff tool.name "delete")

gated_unused_example :
    loop ⦃py = plain_python⦄ (record outside { handle = only_reads }) turn 3 [] machine
    ≡ loop ⦃py = plain_python⦄ outside turn 3 [] machine
gated_unused_example =
    loop-gated_unused ⦃py = plain_python⦄ outside turn only_reads only_reads-same 3 [] machine

-- A client that fails once four steps were taken.
abbrev four_steps : LlmRequest → Exec Machine LlmResponse
four_steps request m =
    if leb 4 m.ledger.steps then (err (value_error "spent"), m) else (ok deleting, m)

four_steps-same :
    (request : LlmRequest) (n : Machine)
    → exhaustion n.ledger budget n.clock ≡ none
    → four_steps request n ≡ outside.client request n
four_steps-same request n may =
    let (live, room, left) = exhaustion-none n.ledger budget n.clock may in ground (arith, room)

client_unasked_example :
    loop ⦃py = plain_python⦄ (record outside { client = four_steps }) turn 3 [] machine
    ≡ loop ⦃py = plain_python⦄ outside turn 3 [] machine
client_unasked_example =
    loop-client_unasked ⦃py = plain_python⦄ outside turn four_steps four_steps-same 3 [] machine

-- A turn that asks for a text, and a model that gives one.
abbrev text_schema : Fields
text_schema = field "type" (str "string") end

abbrev asking : Turn
asking = record turn { schema = some text_schema }

abbrev giving : Outside
giving = record outside {
  client = λ request m.
      (ok (record deleting { finish_reason = "stop"; tool_calls = []; structured = str "yes" }), m);
}

abbrev response_in : Option (Result AgentResponse × Machine) → AgentResponse
response_in (some (ok response, m)) = response
response_in o = nothing

abbrev pub machine_in : Option (Result AgentResponse × Machine) → Machine
machine_in (some (r, m)) = m
machine_in none = machine

structured_example : (schema : Fields) × (asking.schema ≡ some schema) × Conforms schema (str "yes")
unfolding loop steps step ask answer dispatch run_calls invoke finish exhaustion start messages
    to_messages thread_view record_messages needs_approval to_message assert_document complete_run
    schema_problems matches
structured_example =
    loop-structured ⦃py = plain_python⦄ giving asking 2 [] machine
      (machine_in (loop ⦃py = plain_python⦄ giving asking 2 [] machine))
      (response_in (loop ⦃py = plain_python⦄ giving asking 2 [] machine)) (str "yes") refl refl

abbrev options : Fields
options = field "max_steps_ceiling" (int (pos 2)) end

bounded_example :
    (exhaustion (start "run" 0) (root "run" budget 0).budget 0 ≡ none)
    × (pos (start "run" 0).steps <ℤ pos (root "run" budget 0).ledger.steps +ℤ pos 2)
unfolding bounded_run exhaustion root start ◌+ℤ◌
bounded_example =
    bounded_run_within options (root "run" budget 0) (start "run" 0) 0 (pos 2) refl refl
