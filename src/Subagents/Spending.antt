-- ===== src/Subagents/Spending.antt =====
-- A ledger only grows, so a run tree that may not spend never may again.
use prism_harness_py.Prelude.{
  ℕ, ◌≤◌, false, Option, none, some, List, [], ◌∷◌, String, ◌≡◌, ◌≢◌, refl, arith, if◌then◌else◌,
}
use prism_harness_py.Prelude.Int.{ℤ, pos, negsuc, max_ℤ, leb_ℤ, scale, ◌+ℤ◌, ◌≤ℤ◌, int_laws}
use prism_harness_py.Value.{ticks_per_second}
use prism_harness_py.Errors.{out_of_time}
use prism_harness_py.Subagents.Ledger.{
  RunBudget, RunLedger, exhaustion, elapsed, record_steps, record_cost, cancel, exhausted_money,
  exhausted_time,
}
use prism_harness_py.Subagents.Nesting.{exhaustion-none, or_else-none}

-- What the runs of a tree do to the ledger they share.
pub data Spend : Type 0 where
  steps_taken : ℤ → Spend
  cost_charged : Option ℤ → Spend
  cancelled_by : (reason : String) → Spend

abbrev pub spend : Spend → RunLedger → RunLedger
spend (steps_taken n) ledger = record_steps ledger n
spend (cost_charged usd) ledger = record_cost ledger usd
spend (cancelled_by reason) ledger = cancel ledger reason

abbrev pub spend_all : List Spend → RunLedger → RunLedger
spend_all [] ledger = ledger
spend_all (s ∷ rest) ledger = spend_all rest (spend s ledger)

-- The second ledger is the first, spent on.
record Grows (a b : RunLedger) : Type 0 where
  started : b.started_at ≡ a.started_at
  steps : a.steps ≤ b.steps
  cost : a.cost_usd ≤ℤ b.cost_usd
  unmetered : a.unmetered_runs ≤ b.unmetered_runs
  stopped : b.cancelled ≡ false → a.cancelled ≡ false

charge_grows : (c u : ℤ) → c ≤ℤ c +ℤ max_ℤ (pos 0) u
charge_grows c u = let nonneg = max_nonneg u in omega int_laws
  where
    max_nonneg : (x : ℤ) → pos 0 ≤ℤ max_ℤ (pos 0) x
    max_nonneg (pos n) = ground arith
    max_nonneg (negsuc n) = ground arith

spend-Grows : (s : Spend) (ledger : RunLedger) → Grows ledger (spend s ledger)
unfolding record_steps record_cost cancel
spend-Grows (steps_taken n) ledger = record {
  started = refl;
  steps = omega arith;
  cost = omega arith;
  unmetered = omega arith;
  stopped = λ h. h;
}
spend-Grows (cost_charged none) ledger = record {
  started = refl;
  steps = omega arith;
  cost = omega arith;
  unmetered = omega arith;
  stopped = λ h. h;
}
spend-Grows (cost_charged (some usd)) ledger = record {
  started = refl;
  steps = omega arith;
  cost = charge_grows ledger.cost_usd usd;
  unmetered = omega arith;
  stopped = λ h. h;
}
spend-Grows (cancelled_by reason) ledger = record {
  started = refl;
  steps = omega arith;
  cost = omega arith;
  unmetered = omega arith;
  stopped = λ h. cc;
}

money_before :
    (a b : RunLedger) (ceiling : Option ℤ)
    → Grows a b
    → exhausted_money b ceiling ≡ none
    → exhausted_money a ceiling ≡ none
money_before a b none g may = refl
money_before a b (some ceiling) g may = ground (arith, g.cost, g.unmetered)

time_before :
    (a b : RunLedger) (now later : ℕ) (ceiling : Option ℤ)
    → Grows a b
    → now ≤ later
    → exhausted_time b later ceiling ≡ none
    → exhausted_time a now ceiling ≡ none
time_before a b now later none g h may = refl
time_before a b now later (some ceiling) g h may = go (scale ticks_per_second ceiling) may
  where
    go :
        (limit : ℤ)
        → (if leb_ℤ limit (elapsed b later)
            then some (out_of_time (elapsed b later) ceiling)
            else none)
          ≡ none
        → (if leb_ℤ limit (elapsed a now) then some (out_of_time (elapsed a now) ceiling) else none)
          ≡ none
    go limit under = let start = g.started in ground arith

-- A tree that may spend later might have spent before.
exhaustion_before :
    (budget : RunBudget) (a b : RunLedger) (now later : ℕ)
    → Grows a b
    → now ≤ later
    → exhaustion b budget later ≡ none
    → exhaustion a budget now ≡ none
unfolding exhaustion
exhaustion_before budget a b now later g h may =
    let (live, room, left) = exhaustion-none b budget later may in
    let (money, time) =
      or_else-none (exhausted_money b budget.max_cost_usd)
        (exhausted_time b later budget.max_seconds) left in
    rw
      (
        g.stopped live,
        fewer budget.max_steps a.steps b.steps g.steps room,
        money_before a b budget.max_cost_usd g money,
      )
      (time_before a b now later budget.max_seconds g h time)
  where
    fewer : (m : ℤ) (s t : ℕ) → s ≤ t → leb_ℤ m (pos t) ≡ false → leb_ℤ m (pos s) ≡ false
    fewer m s t le under = ground arith

exhaustion_before_all :
    (ops : List Spend) (budget : RunBudget) (ledger : RunLedger) (now later : ℕ)
    → now ≤ later
    → exhaustion (spend_all ops ledger) budget later ≡ none
    → exhaustion ledger budget now ≡ none
exhaustion_before_all [] budget ledger now later h may =
    exhaustion_before budget ledger ledger now later
      (record {
        started = refl;
        steps = omega arith;
        cost = omega arith;
        unmetered = omega arith;
        stopped = λ x. x;
      })
      h may
exhaustion_before_all (s ∷ rest) budget ledger now later h may =
    exhaustion_before budget ledger (spend s ledger) now now (spend-Grows s ledger) (omega arith)
      (exhaustion_before_all rest budget (spend s ledger) now later h may)

-- A run tree that is refused, for whatever reason, is refused ever after: no steps recorded, no cost
-- charged or left unknown, no cancellation and no passing of time lets it spend again.
pub exhaustion_final :
    (ops : List Spend) (budget : RunBudget) (ledger : RunLedger) (now later : ℕ)
    → now ≤ later
    → exhaustion ledger budget now ≢ none
    → exhaustion (spend_all ops ledger) budget later ≢ none
exhaustion_final ops budget ledger now later h refused may =
    refused (exhaustion_before_all ops budget ledger now later h may)
