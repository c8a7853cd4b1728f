-- ===== src/Subagents/Nesting.antt =====
-- Budgets nest: no chain of nested runs has more to spend than the run it began at.
use prism_harness_py.Prelude.{
  ℕ, String, Bool, true, false, Option, none, some, ◌≡◌, inl, inr, refl, arith, if◌then◌else◌,
}
use prism_harness_py.Prelude.Int.{
  ℤ, pos, negsuc, scale, min_ℤ, leb_ℤ, ◌+ℤ◌, ◌-ℤ◌, ◌≤ℤ◌, int_laws, ≤ℤ_total, min_left, min_right,
}
use prism_harness_py.Value.{ticks_per_second}
use prism_harness_py.Errors.{Exhaustion, out_of_time}
use prism_harness_py.Subagents.Ledger.{
  RunBudget, RunLedger, exhaustion, elapsed, exhausted_money, exhausted_time, or_else,
}
use prism_harness_py.Subagents.Context.{nested_within, lesser, Subagent, RunContext, for_child}

-- Scaling keeps the order.
scale-mono : (a b : ℤ) → a ≤ℤ b → scale ticks_per_second a ≤ℤ scale ticks_per_second b
scale-mono (pos a) (pos b) h = ground arith
scale-mono (pos a) (negsuc b) h = ground arith
scale-mono (negsuc a) (pos b) h = ground arith
scale-mono (negsuc a) (negsuc b) h = ground arith

-- A ceiling that is at most another: none is no ceiling.
abbrev pub IsUnder : (own other : Option ℤ) → Type 0
IsUnder own none = Unit
IsUnder none (some b) = ⊥
IsUnder (some a) (some b) = a ≤ℤ b

pub record IsWithin (own other : RunBudget) : Type 0 where
  pub steps : own.max_steps ≤ℤ other.max_steps
  pub cost : IsUnder own.max_cost_usd other.max_cost_usd
  pub time : IsUnder own.max_seconds other.max_seconds

lesser-IsUnder : (a b : Option ℤ) → IsUnder (lesser a b) a
lesser-IsUnder none none = tt
lesser-IsUnder none (some b) = tt
lesser-IsUnder (some a) none = ground arith
lesser-IsUnder (some a) (some b) = ground arith

IsUnder-trans : (a b c : Option ℤ) → IsUnder a b → IsUnder b c → IsUnder a c
IsUnder-trans a b none h k = tt
IsUnder-trans a none (some c) h k = absurd k
IsUnder-trans none (some b) (some c) h k = absurd h
IsUnder-trans (some a) (some b) (some c) h k = omega arith

pub nested-IsWithin :
    (own parent : RunBudget) (ledger : RunLedger) (now : ℕ)
    → IsWithin (nested_within own parent ledger now) parent
unfolding nested_within
nested-IsWithin own parent ledger now = record {
  steps = ground arith;
  cost = lesser-IsUnder parent.max_cost_usd _;
  time = lesser-IsUnder parent.max_seconds _;
}

pub IsWithin-trans : {a b c : RunBudget} → IsWithin a b → IsWithin b c → IsWithin a c
IsWithin-trans {a} {b} {c} h k = record {
  steps = omega (arith, h.steps, k.steps);
  cost = IsUnder-trans a.max_cost_usd b.max_cost_usd c.max_cost_usd h.cost k.cost;
  time = IsUnder-trans a.max_seconds b.max_seconds c.max_seconds h.time k.time;
}

money-IsUnder :
    (ledger : RunLedger) (a b : Option ℤ)
    → IsUnder a b
    → exhausted_money ledger a ≡ none
    → exhausted_money ledger b ≡ none
money-IsUnder ledger a none h may = refl
money-IsUnder ledger none (some b) h may = absurd h
money-IsUnder ledger (some a) (some b) h may = ground arith

time-IsUnder :
    (ledger : RunLedger) (now : ℕ) (a b : Option ℤ)
    → IsUnder a b
    → exhausted_time ledger now a ≡ none
    → exhausted_time ledger now b ≡ none
time-IsUnder ledger now a none h may = refl
time-IsUnder ledger now none (some b) h may = absurd h
time-IsUnder ledger now (some a) (some b) h may =
    still (scale ticks_per_second a) (scale ticks_per_second b) (elapsed ledger now)
      (scale-mono a b h) may
  where
    still :
        (x y e : ℤ)
        → x ≤ℤ y
        → (if leb_ℤ x e then some (out_of_time e a) else none) ≡ none
        → (if leb_ℤ y e then some (out_of_time e b) else none) ≡ none
    still x y e le under = ground arith

pub or_else-none : (x y : Option Exhaustion) → or_else x y ≡ none → (x ≡ none) × (y ≡ none)
or_else-none none y h = (refl, h)
or_else-none (some r) y h = cc

pub if_none :
    (b : Bool) (x : Exhaustion) {y : Option Exhaustion}
    → (if b then some x else y) ≡ none
    → (b ≡ false) × (y ≡ none)
if_none true x h = cc
if_none false x h = (refl, h)

-- What a run that may spend has left in every kind.
pub exhaustion-none :
    (ledger : RunLedger) (budget : RunBudget) (now : ℕ)
    → exhaustion ledger budget now ≡ none
    → (ledger.cancelled ≡ false)
      × (leb_ℤ budget.max_steps (pos ledger.steps) ≡ false)
      × (or_else
            (exhausted_money ledger budget.max_cost_usd)
            (exhausted_time ledger now budget.max_seconds)
          ≡ none)
unfolding exhaustion
exhaustion-none ledger budget now may =
    let (live, rest) = if_none ledger.cancelled _ may in
    let (room, left) = if_none (leb_ℤ budget.max_steps (pos ledger.steps)) _ rest in
    (live, room, left)

steps_left : (a b s : ℤ) → a ≤ℤ b → leb_ℤ a s ≡ false → leb_ℤ b s ≡ false
steps_left a b s h room = ground arith

-- A run that may spend under the smaller budget may spend under the larger.
pub exhaustion-IsWithin :
    (own other : RunBudget) (ledger : RunLedger) (now : ℕ)
    → IsWithin own other
    → exhaustion ledger own now ≡ none
    → exhaustion ledger other now ≡ none
unfolding exhaustion
exhaustion-IsWithin own other ledger now within may =
    let (live, room, left) = exhaustion-none ledger own now may in
    let (money, time) = or_else-none _ _ left in
    let more = steps_left own.max_steps other.max_steps (pos ledger.steps) within.steps room in
    rw (live, more, money-IsUnder ledger own.max_cost_usd other.max_cost_usd within.cost money)
      (time-IsUnder ledger now own.max_seconds other.max_seconds within.time time)

-- A run tree below a context: a nested run at any depth, and what any run of the tree adds to the
-- ledger that they share.
pub data Descends (c : RunContext) : RunContext → Type 0 where
  here : Descends c c
  nests :
      {d : RunContext}
      → Descends c d
      → (agent : Subagent) (run_id : String) (now : ℕ) → Descends c (for_child d agent run_id now)
  spends :
      {d : RunContext}
      → Descends c d
      → (ledger : RunLedger) → Descends c (record d { ledger = ledger })

pub IsWithin-self : (b : RunBudget) → IsWithin b b
IsWithin-self b = record {
  steps = omega arith;
  cost = under_self b.max_cost_usd;
  time = under_self b.max_seconds;
}
  where
    under_self : (o : Option ℤ) → IsUnder o o
    under_self none = tt
    under_self (some a) = omega arith

budget-IsWithin : {c d : RunContext} → Descends c d → IsWithin d.budget c.budget
unfolding for_child
budget-IsWithin {c} here = IsWithin-self c.budget
budget-IsWithin (nests {d} path agent run_id now) =
    IsWithin-trans (nested-IsWithin agent.budget d.budget d.ledger now) (budget-IsWithin path)
budget-IsWithin (spends path ledger) = budget-IsWithin path

-- At any depth below a run, whatever budgets the nested agents declare and whatever the tree has
-- spent meanwhile: when a nested run may spend again, so may the run above it, asked of the same
-- ledger at the same moment. A nested budget never outlasts its ancestor's.
pub descendant_within :
    {c d : RunContext}
    → Descends c d
    → (ledger : RunLedger) (now : ℕ) → exhaustion ledger d.budget now ≡ none
    → exhaustion ledger c.budget now ≡ none
descendant_within {c} {d} path ledger now may =
    exhaustion-IsWithin d.budget c.budget ledger now (budget-IsWithin path) may

-- Steps left to a nested run, measured on the ledger it shares: what it declared, or what its parent
-- has left where that is less. A parent with steps left leaves a child that declares steps some.
pub nested_room :
    (own parent : RunBudget) (ledger : RunLedger) (now : ℕ)
    → (nested_within own parent ledger now).max_steps -ℤ pos ledger.steps
      ≡ min_ℤ (parent.max_steps -ℤ pos ledger.steps) own.max_steps
unfolding nested_within
nested_room own parent ledger now = room parent.max_steps own.max_steps (pos ledger.steps)
  where
    room : (p o s : ℤ) → min_ℤ p (s +ℤ o) -ℤ s ≡ min_ℤ (p -ℤ s) o
    room p o s = elim (≤ℤ_total p (s +ℤ o)) [
      | inl h ↦ rw (min_left p (s +ℤ o) h, min_left (p -ℤ s) o (omega int_laws))
      | inr h ↦ rw (min_right p (s +ℤ o) h, min_right (p -ℤ s) o (omega int_laws)) (omega int_laws)
    ]
