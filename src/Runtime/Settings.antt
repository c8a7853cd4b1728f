-- ===== src/Runtime/Settings.antt =====
-- What a run may have: `_validate_runtime_config`, `_settings`, `_bounded_run` and `_narrowed_tools`.
use prism_harness_py.Subagents.Nesting.{
  exhaustion-IsWithin, exhaustion-none, IsWithin, IsWithin-self,
}
use prism_harness_py.Prelude.{
  ℕ, String, Bool, true, false, not, Option, none, some, List, [], ◌∷◌, ◌≡◌, inl, inr, arith,
  if◌then◌else◌, min, leb, Bool-cases, Option-cases, str_eq, eq_iff,
}
use prism_harness_py.Prelude.Int.{◌≤ℤ◌, ◌<ℤ◌, ℤ, pos, leb_ℤ, min_ℤ, ◌+ℤ◌, pos_part}
use prism_harness_py.Value.{Value, null, int, str, Fields, get}
use prism_harness_py.Errors.{harness, value_error, HarnessError}
use prism_harness_py.Result.{Result, ok, err, ◌>>◌, raise_if}
use prism_harness_py.Subagents.{exhaustion, RunBudget, RunLedger, RunContext}
use prism_harness_py.Runtime.Data.{is_in}

-- None, or a text that is not empty.
abbrev is_name : Option Value → Bool
is_name none = true
is_name (some null) = true
is_name (some (str s)) = not (str_eq s "")
is_name _ = false

-- None, or an integer of one at least.
abbrev pub is_ceiling : Option Value → Bool
is_ceiling none = true
is_ceiling (some null) = true
is_ceiling (some (int n)) = leb_ℤ (pos 1) n
is_ceiling _ = false

-- Not there, or an integer of `least` at least.
abbrev is_seconds : (least : ℤ) → Option Value → Bool
is_seconds least none = true
is_seconds least (some (int n)) = leb_ℤ least n
is_seconds least _ = false

abbrev refuse_unless : Bool → (message : String) → Result (Unit {0})
refuse_unless c message = raise_if (not c) (value_error message)

abbrev names_message : String
names_message = "Agent provider/model defaults must be nonempty strings or null."

abbrev ceilings_message : String
ceilings_message = "Agent step/output ceilings must be positive integers or null."

abbrev seconds_message : String
seconds_message =
    "Agent lock settings must be whole seconds with positive TTL and nonnegative wait."

-- `_validate_runtime_config`
unfoldable pub validate_runtime_config : Fields → Result (Unit {0})
validate_runtime_config config =
    refuse_unless (is_name (get "provider" config)) names_message
    >> refuse_unless (is_name (get "model" config)) names_message
    >> refuse_unless (is_ceiling (get "max_steps_ceiling" config)) ceilings_message
    >> refuse_unless (is_ceiling (get "max_output_tokens_per_call" config)) ceilings_message
    >> refuse_unless (is_seconds (pos 1) (get "lock_ttl" config)) seconds_message
    >> refuse_unless (is_seconds (pos 0) (get "lock_wait" config)) seconds_message

-- `options.get(key)`, of a validated ceiling
abbrev pub ceiling_at : String → Fields → Option ℤ
ceiling_at key options = elim (get key options) [ some (int n) ↦ some n | _ ↦ none ]

abbrev bounded_steps : Option ℤ → RunContext → ℤ
bounded_steps none run = run.budget.max_steps
bounded_steps (some n) run = min_ℤ run.budget.max_steps (pos run.ledger.steps +ℤ n)

-- `min(budget.max_output_tokens_per_call or output, output)`
abbrev bounded_output : Option ℤ → Option ℕ → Option ℕ
bounded_output none budget = budget
bounded_output (some n) none = some (pos_part n)
bounded_output (some n) (some own) = some (min (if leb 1 own then own else pos_part n) (pos_part n))

-- `_bounded_run`, of the options that `_settings` merges
unfoldable pub bounded_run : Fields → RunContext → RunContext
bounded_run options run = record run {
  budget = record run.budget {
    max_steps = bounded_steps (ceiling_at "max_steps_ceiling" options) run;
    max_output_tokens_per_call =
        bounded_output (ceiling_at "max_output_tokens_per_call" options)
          run.budget.max_output_tokens_per_call;
  };
}

abbrev pub refused_name : (ceiling requested : List String) → Option String
refused_name ceiling [] = none
refused_name ceiling (name ∷ names) =
    let rest = refused_name ceiling names in if is_in name ceiling then rest else some name

-- `_narrowed_tools`
unfoldable pub narrowed_tools :
    (ceiling : List String) → (requested : Option (List String)) → Result (List String)
narrowed_tools ceiling none = ok ceiling
narrowed_tools ceiling (some requested) =
    if is_in "*" requested
    then ok ceiling
    else if is_in "*" ceiling
    then ok requested
    else elim (refused_name ceiling requested) [
      | none ↦ ok requested
      | some name ↦ err (harness (HarnessError.tool_not_available name ceiling))
    ]

min_le : (a b : ℤ) → min_ℤ a b ≤ℤ a
min_le a b = ground arith

under_min : (a b c : ℤ) → leb_ℤ (min_ℤ a b) c ≡ false → c <ℤ b
under_min a b c h = ground arith

refused_name-none :
    (ceiling requested : List String) (name : String)
    → refused_name ceiling requested ≡ none
    → is_in name requested ≡ true
    → is_in name ceiling ≡ true
refused_name-none ceiling [] name h has = cc
refused_name-none ceiling (first ∷ rest) name h has = elim (Bool-cases (is_in first ceiling)) [
  | inr other ↦ cc (rw other at h)
  | inl there ↦ elim (Bool-cases (str_eq first name)) [
    | inl is ↦ let same : first ≡ name = ground (arith, eq_iff first name) in rw (← same) there
    | inr not_it ↦ refused_name-none ceiling rest name (rw there at h) (rw not_it at has)
  ]
]

-- A mode that lists its tools lets a run have no others, whatever the run asks for: a request is
-- narrowed to it or refused.
pub narrowed_tools_within :
    (ceiling names : List String) (requested : Option (List String)) (name : String)
    → is_in "*" ceiling ≡ false
    → narrowed_tools ceiling requested ≡ ok names
    → is_in name names ≡ true
    → is_in name ceiling ≡ true
unfolding narrowed_tools
narrowed_tools_within ceiling names none name closed h has =
    let same : ceiling ≡ names = cc in rw same has
narrowed_tools_within ceiling names (some requested) name closed h has =
    elim (Bool-cases (is_in "*" requested)) [
      | inl every ↦ let same : ceiling ≡ names = cc (rw (every, narrowed_tools) at h) in rw same has
      | inr some_only ↦ elim (Option-cases (refused_name ceiling requested)) [
        | inr (refused, is) ↦ cc (rw (some_only, closed, is, narrowed_tools) at h)
        | inl fine ↦
            let same : requested ≡ names = cc (rw (some_only, closed, fine, narrowed_tools) at h) in
            refused_name-none ceiling requested name fine (rw same has)
      ]
    ]

bounded_steps_le : (o : Option ℤ) (run : RunContext) → bounded_steps o run ≤ℤ run.budget.max_steps
bounded_steps_le none run = omega arith
bounded_steps_le (some n) run = min_le run.budget.max_steps (pos run.ledger.steps +ℤ n)

-- A run that may spend within its agent's settings, which put a ceiling on its steps, may spend within
-- its own budget too, and its tree is not that many steps past where it stood.
pub bounded_run_within :
    (options : Fields) (run : RunContext) (ledger : RunLedger) (now : ℕ) (n : ℤ)
    → ceiling_at "max_steps_ceiling" options ≡ some n
    → exhaustion ledger (bounded_run options run).budget now ≡ none
    → (exhaustion ledger run.budget now ≡ none) × (pos ledger.steps <ℤ pos run.ledger.steps +ℤ n)
unfolding bounded_run
bounded_run_within options run ledger now n is may =
    let self = IsWithin-self run.budget in
    let ceiling = ceiling_at "max_steps_ceiling" options in
    let own : RunBudget = (bounded_run options run).budget in
    let within : IsWithin own run.budget = record {
      steps = bounded_steps_le ceiling run;
      cost = self.cost;
      time = self.time;
    } in
    let (live, room, left) = exhaustion-none ledger own now may in
    (
      exhaustion-IsWithin own run.budget ledger now within may,
      under_min run.budget.max_steps (pos run.ledger.steps +ℤ n) (pos ledger.steps) (rw is at room),
    )
