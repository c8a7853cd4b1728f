-- ===== src/Subagents/Ledger.antt =====
-- src/prism_harness/subagents.py: `RunBudget`, and `RunLedger` with what its methods change and ask.
use prism_harness_py.Prelude.{
  ℕ, ◌+◌, String, Bool, true, false, Option, none, some, ltb, if◌then◌else◌, str_eq,
}
use prism_harness_py.Prelude.Int.{
  ℤ, pos, pos_part, leb_ℤ, sub_ℕ, scale, truncate, max_ℤ, ◌+ℤ◌, ◌-ℤ◌,
}
use prism_harness_py.Value.{ticks_per_second}
use prism_harness_py.Errors.{
  Exhaustion, cancelled, out_of_steps, cost_unknown, out_of_money, out_of_time,
}

pub record RunBudget : Type 0 where
  pub max_steps : ℤ
  pub max_cost_usd : Option ℤ
  pub max_seconds : Option ℤ
  pub max_output_tokens_per_call : Option ℕ

pub record RunLedger : Type 0 where
  pub root_run_id : String
  pub started_at : ℕ
  pub steps : ℕ
  pub cost_usd : ℤ
  pub unmetered_runs : ℕ
  pub cancelled : Bool
  pub cancel_reason : Option String

unfoldable pub start : (root_run_id : String) (now : ℕ) → RunLedger
start root_run_id now = record {
  root_run_id = root_run_id;
  started_at = now;
  steps = 0;
  cost_usd = pos 0;
  unmetered_runs = 0;
  cancelled = false;
  cancel_reason = none;
}

abbrev pub elapsed : RunLedger → (now : ℕ) → ℤ
elapsed ledger now = sub_ℕ now ledger.started_at

-- `max(0, steps)`
unfoldable pub record_steps : RunLedger → ℤ → RunLedger
record_steps ledger n = record ledger { steps = ledger.steps + pos_part n }

unfoldable pub record_cost : RunLedger → Option ℤ → RunLedger
record_cost ledger none = record ledger { unmetered_runs = ledger.unmetered_runs + 1 }
record_cost ledger (some usd) = record ledger { cost_usd = ledger.cost_usd +ℤ max_ℤ (pos 0) usd }

unfoldable pub cancel : RunLedger → (reason : String) → RunLedger
cancel ledger reason = record ledger { cancelled = true; cancel_reason = some reason }

unfoldable pub remaining_cost : RunLedger → RunBudget → Option ℤ
remaining_cost ledger budget = elim budget.max_cost_usd [
  | none ↦ none
  | some cap ↦ some (max_ℤ (pos 0) (cap -ℤ ledger.cost_usd))
]

unfoldable pub remaining_seconds : RunLedger → RunBudget → (now : ℕ) → Option ℤ
remaining_seconds ledger budget now = elim budget.max_seconds [
  | none ↦ none
  | some cap ↦
      some (
        max_ℤ (pos 0)
          (truncate ticks_per_second (scale ticks_per_second cap -ℤ elapsed ledger now)))
]

-- `self._cancel_reason or "cancelled"`
abbrev cancel_text : Option String → String
cancel_text none = "cancelled"
cancel_text (some reason) = if str_eq reason "" then "cancelled" else reason

abbrev pub exhausted_money : RunLedger → Option ℤ → Option Exhaustion
exhausted_money ledger none = none
exhausted_money ledger (some cap) =
    if ltb 0 ledger.unmetered_runs
    then some (cost_unknown ledger.unmetered_runs cap)
    else if leb_ℤ cap ledger.cost_usd
    then some (out_of_money ledger.cost_usd cap)
    else none

abbrev pub exhausted_time : RunLedger → (now : ℕ) → Option ℤ → Option Exhaustion
exhausted_time ledger now none = none
exhausted_time ledger now (some cap) =
    if leb_ℤ (scale ticks_per_second cap) (elapsed ledger now)
    then some (out_of_time (elapsed ledger now) cap)
    else none

abbrev pub or_else : Option Exhaustion → Option Exhaustion → Option Exhaustion
or_else none other = other
or_else (some reason) _ = some reason

unfoldable pub exhaustion : RunLedger → RunBudget → (now : ℕ) → Option Exhaustion
exhaustion ledger budget now =
    if ledger.cancelled
    then some (cancelled (cancel_text ledger.cancel_reason))
    else if leb_ℤ budget.max_steps (pos ledger.steps)
    then some (out_of_steps ledger.steps budget.max_steps)
    else or_else (exhausted_money ledger budget.max_cost_usd)
        (exhausted_time ledger now budget.max_seconds)
