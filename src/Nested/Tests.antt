-- ===== src/Nested/Tests.antt =====
-- A nested agent on a concrete machine.
use prism_harness_py.Value.{end, str, field}
use prism_harness_py.Prelude.{ℕ, String, some, none, refl, ◌≡◌}
use Prim.Native.String.{◌++◌}
use prism_harness_py.Result.{ok}
use prism_harness_py.Subagents.{Subagent, root}
use prism_harness_py.Runtime.Data.{Machine}
use prism_harness_py.Runtime.Offering.{AgentRuntime}
use prism_harness_py.Runtime.Tests.{plain_python, machine, outside, budget, counted}
use prism_harness_py.Runtime.TurnTests.{runtime}
use prism_harness_py.Nested.{Parent, handle}
use prism_harness_py.Nested.Framing.{handle_returns}

abbrev open_runtime : AgentRuntime
open_runtime = record runtime { authorizer = none }

abbrev parent : Parent
parent = record {
  scope = "chat";
  key_of = λ scope. "session:u:" ++ scope;
  context = root "run" budget 0;
  run_id = "run";
  show = λ e. "spent";
}

abbrev researcher : Subagent
researcher = record {
  name = "researcher";
  description = "";
  mode = "chat";
  budget = budget;
  scope_suffix = none;
}

returns_example :
    (fuel : ℕ) × (text : String) × (n : Machine) × (handle ⦃py = plain_python⦄ outside open_runtime
        parent researcher
        (field "task" (str "Look") end)
        fuel
        machine
      ≡ some (ok text, n))
    × (n.session.key ≡ "s")
unfolding root
returns_example =
    handle_returns ⦃py = plain_python⦄ outside open_runtime parent researcher
      (field "task" (str "Look") end) machine refl counted
