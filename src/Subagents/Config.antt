-- ===== src/Subagents/Config.antt =====
-- src/prism_harness/subagents.py: budgets and nested agents read from configuration.
use prism_harness_py.Prelude.{ℕ, String, Option, none, some, leb, if◌then◌else◌, str_eq}
use prism_harness_py.Prelude.Int.{ℤ, pos, scale, truncate}
use prism_harness_py.Value.{Value, null, int, float, str, Fields, get, ticks_per_second}
use prism_harness_py.Errors.{value_error}
use prism_harness_py.Result.{Result, ok, err, ◌>>=◌}
use Prim.Native.String.{◌++◌}
use prism_harness_py.Subagents.Ledger.{RunBudget}
use prism_harness_py.Subagents.Context.{Subagent}

-- `_int_or`
unfoldable pub int_or : Option Value → ℤ → ℤ
int_or (some (int n)) fallback = n
int_or (some (float t)) fallback = truncate ticks_per_second t
int_or _ fallback = fallback

-- `_int_or_none`
unfoldable pub int_or_none : Option Value → Option ℤ
int_or_none (some (int n)) = some n
int_or_none (some (float t)) = some (truncate ticks_per_second t)
int_or_none _ = none

-- `_float_or_none`, in ticks
unfoldable pub float_or_none : Option Value → Option ℤ
float_or_none (some (int n)) = some (scale ticks_per_second n)
float_or_none (some (float t)) = some t
float_or_none _ = none

-- The check of `max_output_tokens_per_call`: None, or an int of at least one that is no bool.
unfoldable pub output_limit : Option Value → Result (Option ℕ)
output_limit none = ok none
output_limit (some null) = ok none
output_limit (some (int (pos n))) =
    if leb 1 n
    then ok (some n)
    else err (value_error "Output ceilings must be positive integers or null.")
output_limit (some _) = err (value_error "Output ceilings must be positive integers or null.")

unfoldable pub from_config : Fields → (default_steps : ℤ) → Result RunBudget
unfolding output_limit int_or int_or_none float_or_none
from_config config default_steps = do
  output ← output_limit (get "max_output_tokens_per_call" config)
  ok (record {
    max_steps = int_or (get "max_steps" config) default_steps;
    max_cost_usd = float_or_none (get "max_cost_usd" config);
    max_seconds = int_or_none (get "max_seconds" config);
    max_output_tokens_per_call = output;
  })

-- `value if isinstance(value, str) and value else fallback`
abbrev pub text_or : Option Value → String → String
text_or (some (str s)) fallback = if str_eq s "" then fallback else s
text_or _ fallback = fallback

abbrev text_or_none : Option Value → Option String
text_or_none (some (str s)) = some s
text_or_none _ = none

unfoldable pub subagent_from_config : (name : String) → Fields → Result Subagent
unfolding from_config
subagent_from_config name config = do
  budget ← from_config config (pos 8)
  ok (record {
    name = name;
    description =
        text_or (get "description" config)
          ("Run the [" ++ (name ++ "] subagent and return its result."));
    mode = text_or (get "mode" config) name;
    budget = budget;
    scope_suffix = text_or_none (get "scope" config);
  })
