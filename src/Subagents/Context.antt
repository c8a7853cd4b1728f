-- ===== src/Subagents/Context.antt =====
-- src/prism_harness/subagents.py: the budget of a nested run, nested agents, and where a run sits in
-- its tree.
use prism_harness_py.Prelude.{
  ℕ, ◌+◌, String, Bool, true, false, Option, none, some, min, leb, if◌then◌else◌, str_eq,
}
use prism_harness_py.Prelude.Int.{ℤ, pos, truncate, min_ℤ, ◌+ℤ◌}
use prism_harness_py.Value.{ticks_per_second}
use Prim.Native.String.{◌++◌}
use prism_harness_py.Subagents.Ledger.{RunBudget, RunLedger, start, elapsed}

abbrev pub max_depth : ℕ
max_depth = 4

-- `_lesser`
abbrev pub lesser : Option ℤ → Option ℤ → Option ℤ
lesser none b = b
lesser (some a) none = some a
lesser (some a) (some b) = some (min_ℤ a b)

-- The addend of an optional ceiling: `None if declared is None else spent + declared`.
abbrev ceiling : ℤ → Option ℤ → Option ℤ
ceiling spent none = none
ceiling spent (some declared) = some (spent +ℤ declared)

abbrev output_ceiling : (parent own : Option ℕ) → Option ℕ
output_ceiling parent none = parent
output_ceiling none (some own) = some own
output_ceiling (some parent) (some own) = some (min (if leb 1 parent then parent else own) own)

unfoldable pub nested_within : (own parent : RunBudget) → RunLedger → (now : ℕ) → RunBudget
nested_within own parent ledger now = record {
  max_steps = min_ℤ parent.max_steps (pos ledger.steps +ℤ own.max_steps);
  max_cost_usd = lesser parent.max_cost_usd (ceiling ledger.cost_usd own.max_cost_usd);
  max_seconds =
      lesser parent.max_seconds
        (ceiling (truncate ticks_per_second (elapsed ledger now)) own.max_seconds);
  max_output_tokens_per_call =
      output_ceiling parent.max_output_tokens_per_call own.max_output_tokens_per_call;
}

pub record Subagent : Type 0 where
  pub name : String
  pub description : String
  pub mode : String
  pub budget : RunBudget
  pub scope_suffix : Option String

-- `self.scope_suffix or self.name`
abbrev suffix : Subagent → String
suffix s = elim s.scope_suffix [ none ↦ s.name | some t ↦ if str_eq t "" then s.name else t ]

unfoldable pub scope_under : Subagent → (parent_scope : String) → String
scope_under s parent_scope = parent_scope ++ ("::sub::" ++ suffix s)

pub record RunContext : Type 0 where
  pub ledger : RunLedger
  pub budget : RunBudget
  pub parent_run_id : Option String
  pub depth : ℕ

unfoldable pub root : (run_id : String) → RunBudget → (now : ℕ) → RunContext
unfolding start
root run_id budget now = record {
  ledger = start run_id now;
  budget = budget;
  parent_run_id = none;
  depth = 0;
}

abbrev pub is_child : RunContext → Bool
is_child c = elim c.parent_run_id [ none ↦ false | some _ ↦ true ]

unfoldable pub for_child : RunContext → Subagent → (parent_run_id : String) (now : ℕ) → RunContext
unfolding nested_within
for_child c subagent parent_run_id now = record {
  ledger = c.ledger;
  budget = nested_within subagent.budget c.budget c.ledger now;
  parent_run_id = some parent_run_id;
  depth = c.depth + 1;
}

unfoldable pub too_deep : RunContext → Bool
too_deep c = leb max_depth c.depth
