-- ===== src/Runtime/TurnTests.antt =====
-- A turn of an agent whose policy refuses to delete, and each theorem at it.
use prism_harness_py.Runtime.Loop.{ask, step, steps, loop}
use prism_harness_py.Runtime.Resolving.{resolve_approvals}
use prism_harness_py.ThreadRows.Scope.{approval_tool_scope}
use prism_harness_py.ThreadRows.View.{recent_first, thread_view}
use prism_harness_py.Thread.{record_messages, to_message, to_messages}
use prism_harness_py.Registration.{registration_owner}
use prism_harness_py.Tools.Resolving.{resolve_detailed}
use prism_harness_py.Session.{fail_run, resolve_read_only, begin_run}
use prism_harness_py.Runtime.Settings.{narrowed_tools, bounded_run}
use prism_harness_py.Subagents.{exhaustion, root, too_deep}
use prism_harness_py.Attachments.{admit_attachments}
use prism_harness_py.Prelude.{
  length, String, true, not, some, none, List, [], ◌∷◌, ◌≡◌, ◌⊎◌, refl, inl, inr, Bool-cases,
  str_eq,
}
use prism_harness_py.Value.{nil, cons, arr, Fields, field, end, str, obj}
use prism_harness_py.Errors.{value_error}
use prism_harness_py.Result.{Result, ok, err}
use prism_harness_py.Modes.Registry.{ModeRegistry}
use prism_harness_py.Tools.Tool.{HarnessTool}
use prism_harness_py.Tools.Registry.{claim, ToolRegistry, new_registry, register}
use prism_harness_py.Tools.Built.{Built, is_new, registered}
use prism_harness_py.Tools.Authorizer.{allowed, ToolAuthorizer, CallPolicy, allows_call}
use prism_harness_py.Session
use prism_harness_py.Thread.{messages}
use prism_harness_py.Subagents.{start}
use prism_harness_py.Modes.Resolution
use prism_harness_py.Runtime.Data.{Machine, Outside, Turn}
use prism_harness_py.Runtime.Offering.{authorized, check_completion, offer, settings, AgentRuntime}
use prism_harness_py.Runtime.Turning.{prepare}
use prism_harness_py.Runtime.Opening.{Sent, Setup, set_up, begin}
use prism_harness_py.Runtime.Sending.{turn, turn_with, fail}
use prism_harness_py.Runtime.Reporting.{turn-reports, Reported}
use prism_harness_py.Runtime.Starting.{IsUntouched}
use prism_harness_py.Runtime.Guarding.{turn-refused_unused}
use prism_harness_py.Runtime.Offered.{AreWithin}
use prism_harness_py.Runtime.Preparing.{prepare-AreWithin}
use prism_harness_py.Runtime.Tests.{
  budget, mode, plain_python, machine, outside, read, delete, only_reads, machine_in,
}

abbrev no_deletes : CallPolicy Machine
no_deletes tool args m = (ok (not (str_eq tool.name "delete")), m)

abbrev authorizer : ToolAuthorizer Machine
authorizer = record { enabled = true; offer = none; call = some no_deletes }

abbrev registry_of : Result ToolRegistry → ToolRegistry
registry_of (ok r) = r
registry_of (err e) = new_registry none true

abbrev tools : ToolRegistry
tools = registry_of (register read (some "app") (new_registry none true))

tools-Built : Built tools
unfolding register new_registry registration_owner
tools-Built = registered read (some "app") (new_registry none true) tools (is_new none true) refl

abbrev modes : ModeRegistry
modes = record {
  config = field "default" (str "chat") (
      field "modes" (obj (field "chat" (obj (field "tools" (arr (cons (str "read") nil)) end)) end))
        end);
  agent = none;
  owners = [];
  refuse_duplicates = true;
}

abbrev pub runtime : AgentRuntime
runtime = record {
  agent = none;
  modes = modes;
  tools = tools;
  authorizer = some (authorizer, []);
  config = end;
  agents = [];
  narrow_requested_tools = true;
}

abbrev sent : Sent
sent = record {
  prompt = "Hello";
  tool_names = none;
  context = none;
  additional_content = [];
  schema = none;
}

only_reads-allowed :
    (tool : HarnessTool) (args : Fields) (n o : Machine)
    → allows_call Machine authorizer tool args n ≡ (ok true, o)
    → only_reads tool args o ≡ outside.handle tool args o
unfolding allows_call
only_reads-allowed tool args n o may = elim (Bool-cases (str_eq tool.name "delete")) [
  | inl it ↦ cc (rw it at may)
  | inr other ↦ rw other refl
]

refused_unused_example :
    turn ⦃py = plain_python⦄ (record outside { handle = only_reads }) runtime sent 3 machine
    ≡ turn ⦃py = plain_python⦄ outside runtime sent 3 machine
refused_unused_example =
    turn-refused_unused ⦃py = plain_python⦄ outside runtime only_reads (authorizer, []) authorizer
      refl refl refl only_reads-allowed sent 3 machine

-- A client that cannot be reached.
abbrev down : Outside
down = record outside {
  client = λ request m. (err (value_error "down"), m);
  error_text = λ e. "down";
}

reports_example :
    let n = machine_in (turn ⦃py = plain_python⦄ down runtime sent 2 machine) in
    IsUntouched machine n ⊎ Reported down.error_text (value_error "down") n
unfolding turn turn_with set_up begin prepare fail admit_attachments Session.mode Resolution.resolve
    Session.provider Session.model too_deep bounded_run settings root begin_run offer
    resolve_read_only narrowed_tools resolve_detailed register registration_owner new_registry
    allowed messages to_messages to_message thread_view record_messages approval_tool_scope
    resolve_approvals loop steps step ask exhaustion start fail_run claim check_completion
    authorized
reports_example =
    turn-reports ⦃py = plain_python⦄ down runtime sent 2 machine
      (machine_in (turn ⦃py = plain_python⦄ down runtime sent 2 machine)) (value_error "down") refl
      refl

-- The run is reported as failed, and its row says so.
down-reports : length (machine_in (turn ⦃py = plain_python⦄ down runtime sent 2 machine)).events ≡ 2
unfolding turn turn_with set_up begin prepare fail admit_attachments Session.mode Resolution.resolve
    Session.provider Session.model too_deep bounded_run settings root begin_run offer
    resolve_read_only narrowed_tools resolve_detailed register registration_owner new_registry
    allowed messages to_messages to_message thread_view record_messages approval_tool_scope
    resolve_approvals loop steps step ask exhaustion start fail_run claim check_completion
    authorized
down-reports = refl

abbrev setup : Setup
setup = record {
  attachments = [];
  mode = record mode { tools = "read" ∷ [] };
  provider = "p";
  model = "m";
  run_id = "run";
  run = root "run" budget 0;
}

abbrev no_turn : Turn
no_turn = record {
  mode = mode;
  budget = budget;
  run_id = "";
  provider = "";
  model = "";
  offered = delete ∷ [];
  schema = none;
}

abbrev prepared : Result (Turn × List String) × Machine
prepared = prepare ⦃py = plain_python⦄ outside runtime sent setup machine

abbrev turn_in : Result (Turn × List String) → Turn × List String
turn_in (ok t) = t
turn_in (err e) = (no_turn, [])

prepare_example : AreWithin ("read" ∷ []) (turn_in prepared.0).0.offered
unfolding prepare offer resolve_read_only narrowed_tools resolve_detailed register
    registration_owner new_registry allowed messages to_messages to_message record_messages
    approval_tool_scope resolve_approvals recent_first
prepare_example =
    prepare-AreWithin ⦃py = plain_python⦄ outside runtime sent setup machine prepared.1
      (turn_in prepared.0).0 (turn_in prepared.0).1 tools-Built refl refl refl refl

prepared_tools : (turn_in prepared.0).0.offered ≡ record read { wrappings = 1 } ∷ []
unfolding prepare offer resolve_read_only narrowed_tools resolve_detailed register
    registration_owner new_registry allowed messages to_messages to_message record_messages
    approval_tool_scope resolve_approvals recent_first
prepared_tools = refl
