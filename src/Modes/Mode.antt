-- ===== src/Modes/Mode.antt =====
-- `AgentMode`.
use prism_harness_py.Prelude.{String, Bool, ◌||◌, List}
use prism_harness_py.Prelude.Assoc.{is_in}
use prism_harness_py.Prelude.Int.{ℤ}
use prism_harness_py.Value.{Fields}
use prism_harness_py.Subagents.{Subagent}

pub record AgentMode : Type 0 where
  pub name : String
  pub system_prompt : String
  pub tools : List String
  pub skills : List String
  pub max_steps : ℤ
  pub subagents : List (String × Subagent)
  pub requires_approval : List String
  pub provider_options : Fields

-- `needs_approval`
unfoldable pub needs_approval : AgentMode → String → Bool
needs_approval mode tool = is_in "*" mode.requires_approval || is_in tool mode.requires_approval
