-- ===== src/Tools/Authorizer.antt =====
-- `ToolAuthorizer` and `AuthorizedTool`: the offer and the call, each asked by itself.
use prism_harness_py.Prelude.{
  ℕ, zero, suc, String, Bool, true, false, not, ◌&&◌, ◌||◌, Option, none, some, List, [], ◌∷◌,
  if◌then◌else◌,
}
use prism_harness_py.Prelude.Assoc.{lookup}
use prism_harness_py.Value.{Value, Fields}
use prism_harness_py.Errors.{harness, HarnessError}
use prism_harness_py.Result.{Result, ok, err}
use prism_harness_py.Exec.{Exec, pure, raise, ◌>>=◌}
use prism_harness_py.Session.{Session}
use prism_harness_py.Tools.Tool.{HarnessTool, OfferPolicy}

-- The policies are callables of the host. The call policy acts on the whole state `S` of a run.
module _ (S : Type 0) where
  abbrev pub CallPolicy : Type 0
  CallPolicy = HarnessTool → Fields → Exec S Bool

  pub record ToolAuthorizer : Type 0 where
    pub enabled : Bool
    pub offer : Option OfferPolicy
    pub call : Option CallPolicy

  -- `AgentAuthorizationOptions`: what is not there is none, and a policy that is null is some none.
  pub record AgentOptions : Type 0 where
    pub enabled : Option Bool
    pub offer : Option (Option OfferPolicy)
    pub call : Option (Option CallPolicy)

  abbrev is_some : {A : Type 0} → Option A → Bool
  is_some none = false
  is_some (some _) = true

  -- `__init__`: a policy that would never be asked is refused.
  unfoldable pub new_authorizer :
      (enabled : Bool) → Option OfferPolicy → Option CallPolicy → Result ToolAuthorizer
  new_authorizer enabled offer call =
      if not enabled && (is_some offer || is_some call)
      then err (harness HarnessError.policy_defined_but_disabled)
      else ok (record { enabled = enabled; offer = offer; call = call })

  abbrev option_or : {A : Type 0} → Option A → A → A
  option_or none a = a
  option_or (some b) a = b

  abbrev no_options : AgentOptions
  no_options = record { enabled = none; offer = none; call = none }

  -- `for_agent`, of a named agent: what its options leave out is the root's.
  unfoldable pub for_agent :
      (root : ToolAuthorizer) (agents : List (String × AgentOptions))
      → String
      → Result ToolAuthorizer
  unfolding new_authorizer
  for_agent root agents agent =
      let options = option_or (lookup agent agents) no_options in
      new_authorizer (option_or options.enabled root.enabled) (option_or options.offer root.offer)
        (option_or options.call root.call)

  -- `has_call_policy`
  unfoldable pub has_call_policy : ToolAuthorizer → Bool
  has_call_policy a = is_some a.call

  abbrev pub asked : Option OfferPolicy → HarnessTool → Exec Session Bool
  asked none tool = pure true
  asked (some policy) tool = policy tool

  -- `AuthorizedTool(tool, session, self)`
  abbrev pub wrap : HarnessTool → HarnessTool
  wrap tool = record tool { wrappings = suc tool.wrappings }

  abbrev pub kept : Bool → HarnessTool → List HarnessTool → List HarnessTool
  kept b tool tools = if b then wrap tool ∷ tools else tools

  unfoldable pub offered_by :
      Option OfferPolicy → List HarnessTool → Exec Session (List HarnessTool)
  offered_by offer [] = pure []
  offered_by offer (tool ∷ tools) = do
    may ← asked offer tool
    rest ← offered_by offer tools
    pure (kept may tool rest)

  -- `allowed`: the policy is asked of each tool, and each that it keeps is wrapped.
  unfoldable pub allowed : ToolAuthorizer → List HarnessTool → Exec Session (List HarnessTool)
  unfolding offered_by
  allowed a tools = if a.enabled then offered_by a.offer tools else pure tools

  -- `allows_call`
  unfoldable pub allows_call : ToolAuthorizer → HarnessTool → Fields → Exec S Bool
  allows_call a tool args = elim a.call [
    | none ↦ pure true
    | some policy ↦ if a.enabled then policy tool args else pure true
  ]

  abbrev pub if_allowed : HarnessTool → Exec S Value → Bool → Exec S Value
  if_allowed tool runs may =
      if may then runs else raise (harness (HarnessError.call_not_authorized tool.name))

  -- `AuthorizedTool.handle`, of a tool in so many wrappings: the policy is asked about the tool inside,
  -- and what is in no wrapping does what `handle` says.
  abbrev pub wrapped_handle :
      ToolAuthorizer
      → (HarnessTool → Fields → Exec S Value)
      → (wrappings : ℕ) → HarnessTool
      → Fields
      → Exec S Value
  wrapped_handle a handle zero tool args = handle (record tool { wrappings = 0 }) args
  wrapped_handle a handle (suc n) tool args =
      let inner : HarnessTool = record tool { wrappings = n } in
      allows_call a inner args >>= if_allowed inner (wrapped_handle a handle n tool args)

  -- What a tool does: each tool carries its own wrappings.
  unfoldable pub authorized_handle :
      ToolAuthorizer → (HarnessTool → Fields → Exec S Value) → HarnessTool → Fields → Exec S Value
  unfolding allows_call
  authorized_handle a handle tool args = wrapped_handle a handle tool.wrappings tool args
