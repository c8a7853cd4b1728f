-- ===== src/Errors.antt =====
-- src/prism_harness/errors.py: the stable codes, and a `HarnessError` as the factory that made it
-- with the arguments it was given. The English of a message is not modelled: the source calls it
-- free to change. Beside it stand the plain Python exceptions that the modelled code raises.
use prism_harness_py.Prelude.{ℕ, String, Option, List}
use prism_harness_py.Prelude.Int.{ℤ}
use prism_harness_py.Value.{Value}

pub data ErrorCode : Type 0 where
  session_locked unsafe_state_configuration unknown_store_driver tool_not_available : ErrorCode
  run_not_permitted model_step_failed unmappable_content no_agent_runtime : ErrorCode
  mode_not_configured mode_malformed unsafe_authorization_configuration : ErrorCode
  call_not_authorized skill_path_refused duplicate_task_id task_identifier_blank : ErrorCode
  task_not_found task_already_terminal task_lease_not_held task_outcome_invalid : ErrorCode
  task_lease_invalid attachment_by_reference attachment_not_media attachment_empty : ErrorCode
  attachment_without_prompt structured_unreadable structured_schema_violation : ErrorCode

-- Why a lease is not held: the three phrasings of `release` and `extend_lease`, and the one of the
-- completion tool, which names nobody.
pub data NotHeld : Type 0 where
  not_claimed expired : NotHeld
  held_by : Option Value → (worker : String) → NotHeld
  not_this_agent : NotHeld

-- Why a run tree may not spend again (`RunLedger.exhaustion` in subagents.py), with the numbers
-- that its sentence gives. Money is in a fixed fraction of a dollar, and time in ticks.
pub data Exhaustion : Type 0 where
  cancelled : (reason : String) → Exhaustion
  out_of_steps : (used : ℕ) (allowed : ℤ) → Exhaustion
  cost_unknown : (unmetered : ℕ) (cap : ℤ) → Exhaustion
  out_of_money : (spent cap : ℤ) → Exhaustion
  out_of_time : (elapsed allowed : ℤ) → Exhaustion

-- Why a run is refused.
pub data NotPermitted : Type 0 where
  exhausted : (task_id : String) → Exhaustion → NotPermitted
  no_time_left : (task_id : String) → NotPermitted
  refused : String → NotPermitted

-- The finish reasons that `model_step_failed` accepts.
pub data FinishFailure : Type 0 where
  error unknown : FinishFailure

pub data HarnessError : Type 0 where
  session_locked : (key : String) → HarnessError
  volatile_durable_store : (slot driver : String) → HarnessError
  unknown_store_driver : (slot driver : String) → HarnessError
  tool_not_available : (name : String) (available : List String) → HarnessError
  run_not_permitted : NotPermitted → HarnessError
  unmappable_content : (subject : Option Value) → HarnessError
  mode_not_configured : (name : String) → HarnessError
  mode_malformed : (name detail : String) → HarnessError
  policy_defined_but_disabled : HarnessError
  -- raised by the runtime itself, with the same code
  unsafe_task_completion : HarnessError
  call_not_authorized : (tool : String) → HarnessError
  volatile_task_source : HarnessError
  volatile_address_index : HarnessError
  duplicate_task_id : (task_id : String) → HarnessError
  task_identifier_blank : (kind : String) → HarnessError
  task_not_found : (task_id : String) → HarnessError
  task_already_terminal : (task_id state : String) → HarnessError
  task_lease_not_held : (task_id : String) → NotHeld → HarnessError
  task_outcome_invalid : HarnessError
  task_outcome_not_supplied : HarnessError
  task_lease_invalid : HarnessError
  model_step_failed : FinishFailure → HarnessError
  skill_path_refused : (detail : String) → HarnessError
  attachment_by_reference : (index : ℕ) (what : String) → HarnessError
  attachment_not_media : (index : ℕ) (kind : String) → HarnessError
  attachment_empty : (index : ℕ) → HarnessError
  attachment_without_prompt : HarnessError
  no_agent_runtime : (action : String) → HarnessError
  structured_unreadable : (document : String) → HarnessError
  structured_schema_violation : (document : String) (problems : List String) → HarnessError

-- `HarnessError.code`, which is what a consumer branches on.
unfoldable pub code : HarnessError → ErrorCode
code (HarnessError.session_locked _) = ErrorCode.session_locked
code (volatile_durable_store _ _) = ErrorCode.unsafe_state_configuration
code (HarnessError.unknown_store_driver _ _) = ErrorCode.unknown_store_driver
code (HarnessError.tool_not_available _ _) = ErrorCode.tool_not_available
code (HarnessError.run_not_permitted _) = ErrorCode.run_not_permitted
code (HarnessError.unmappable_content _) = ErrorCode.unmappable_content
code (HarnessError.mode_not_configured _) = ErrorCode.mode_not_configured
code (HarnessError.mode_malformed _ _) = ErrorCode.mode_malformed
code policy_defined_but_disabled = ErrorCode.unsafe_authorization_configuration
code unsafe_task_completion = ErrorCode.unsafe_authorization_configuration
code (HarnessError.call_not_authorized _) = ErrorCode.call_not_authorized
code volatile_task_source = ErrorCode.unsafe_state_configuration
code volatile_address_index = ErrorCode.unsafe_state_configuration
code (HarnessError.duplicate_task_id _) = ErrorCode.duplicate_task_id
code (HarnessError.task_identifier_blank _) = ErrorCode.task_identifier_blank
code (HarnessError.task_not_found _) = ErrorCode.task_not_found
code (HarnessError.task_already_terminal _ _) = ErrorCode.task_already_terminal
code (HarnessError.task_lease_not_held _ _) = ErrorCode.task_lease_not_held
code HarnessError.task_outcome_invalid = ErrorCode.task_outcome_invalid
code task_outcome_not_supplied = ErrorCode.task_outcome_invalid
code HarnessError.task_lease_invalid = ErrorCode.task_lease_invalid
code (HarnessError.model_step_failed _) = ErrorCode.model_step_failed
code (HarnessError.skill_path_refused _) = ErrorCode.skill_path_refused
code (HarnessError.attachment_by_reference _ _) = ErrorCode.attachment_by_reference
code (HarnessError.attachment_not_media _ _) = ErrorCode.attachment_not_media
code (HarnessError.attachment_empty _) = ErrorCode.attachment_empty
code HarnessError.attachment_without_prompt = ErrorCode.attachment_without_prompt
code (HarnessError.no_agent_runtime _) = ErrorCode.no_agent_runtime
code (HarnessError.structured_unreadable _) = ErrorCode.structured_unreadable
code (HarnessError.structured_schema_violation _ _) = ErrorCode.structured_schema_violation

pub data Error : Type 0 where
  harness : HarnessError → Error
  -- the address index's own exceptions
  index_lock_scope_unsupported index_recovery_required address_limit_exceeded : Error
  registration_collision : (agent : Option String) (name previous incoming : String) → Error
  value_error type_error assertion_error : (message : String) → Error
  key_error : (key : String) → Error
