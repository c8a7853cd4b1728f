-- ===== src/Subagents/Tests.antt =====
-- A run of eight steps with a nested agent, and each theorem at it.
use prism_harness_py.Subagents.Nesting.{Descends, spends, nested_room, nests, descendant_within}
use prism_harness_py.Subagents.Spending.{exhaustion_final, steps_taken, spend_all}
use prism_harness_py.Prelude.{refl, arith, ◌≢◌, [], ◌∷◌, ◌≡◌, some, none}
use prism_harness_py.Prelude.Int.{◌+ℤ◌, min_ℤ, ◌-ℤ◌, pos}
use prism_harness_py.Subagents.{
  record_steps, start, cancel, record_cost, root, for_child, RunLedger, RunBudget, nested_within,
  Subagent, exhaustion, RunContext,
}

abbrev budget : RunBudget
budget = record {
  max_steps = pos 8;
  max_cost_usd = some (pos 500);
  max_seconds = some (pos 60);
  max_output_tokens_per_call = none;
}

abbrev generous : RunBudget
generous = record {
  max_steps = pos 100;
  max_cost_usd = none;
  max_seconds = none;
  max_output_tokens_per_call = none;
}

abbrev agent : Subagent
agent = record {
  name = "search";
  description = "Search";
  mode = "search";
  budget = generous;
  scope_suffix = none;
}

abbrev top : RunContext
top = root "run" budget 0

abbrev after_three : RunLedger
after_three = record_cost (record_steps (start "run" 0) (pos 3)) (some (pos 40))

abbrev nested : RunContext
nested = for_child (record top { ledger = after_three }) agent "run" 0

nested-steps : nested.budget.max_steps ≡ pos 8
unfolding for_child nested_within root start record_cost record_steps ◌+ℤ◌
nested-steps = refl

descendant_example : exhaustion after_three top.budget 0 ≡ none
unfolding exhaustion for_child nested_within root start record_cost record_steps ◌+ℤ◌
descendant_example =
    descendant_within {c = top} {d = nested}
      (nests (spends Descends.here after_three) agent "run" 0) after_three 0 refl

room_example :
    (nested_within generous budget after_three 0).max_steps -ℤ pos after_three.steps
    ≡ min_ℤ (budget.max_steps -ℤ pos after_three.steps) generous.max_steps
room_example = nested_room generous budget after_three 0

final_example :
    exhaustion (spend_all (steps_taken (pos 1) ∷ []) (cancel after_three "stop")) budget 7 ≢ none
unfolding exhaustion cancel
final_example =
    exhaustion_final (steps_taken (pos 1) ∷ []) budget (cancel after_three "stop") 0 7 (omega arith)
      (λ h. cc)
