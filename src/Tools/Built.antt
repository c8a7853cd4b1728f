-- ===== src/Tools/Built.antt =====
-- The registries that the operations make keep each tool under its own name.
use prism_harness_py.Registration.{registration_owner}
use prism_harness_py.Prelude.{
  length, ◌||◌, ℕ, String, Bool, true, false, Option, none, some, List, ◌≡◌, inl, inr, refl, sym,
  ◌∙◌, ap, arith, eq_iff, str_eq, Bool-cases, if◌then◌else◌,
}
use prism_harness_py.Prelude.Assoc.{lookup, insert, remove, lookup-insert, lookup-remove}
use prism_harness_py.Result.{◌>>◌, ok_unique, first_ok, Result, ok, ◌>>=◌}
use prism_harness_py.Tools.Tool.{HarnessTool, ToolFactory, ToolProvider}
use prism_harness_py.Tools.Registry.{
  check_provider, is_named, check_claim, check_successor, provider_name, ToolRegistry, new_registry,
  is_strict, claimed, cleared, claim, with_tool, with_factory, register, register_factory, replace,
  replace_factory, register_provider, replace_provider,
}

-- A registry for an agent or for none, after any calls that it did not refuse.
pub data Built : ToolRegistry → Type 0 where
  is_new : (agent : Option String) (strict : Bool) → Built (new_registry agent strict)
  registered :
      (tool : HarnessTool) (owner : Option String) (r r' : ToolRegistry)
      → Built r
      → register tool owner r ≡ ok r'
      → Built r'
  factory_registered :
      (name : String) (factory : ToolFactory) (owner : Option String) (r r' : ToolRegistry)
      → Built r
      → register_factory name factory owner r ≡ ok r'
      → Built r'
  replaced :
      (tool : HarnessTool) (predecessor : String) (owner : Option String) (r r' : ToolRegistry)
      → Built r
      → replace tool predecessor owner r ≡ ok r'
      → Built r'
  factory_replaced :
      (name : String) (factory : ToolFactory) (predecessor : String) (owner : Option String)
      (r r' : ToolRegistry)
      → Built r
      → replace_factory name factory predecessor owner r ≡ ok r'
      → Built r'
  provider_registered :
      (show : ℕ → String) (provider : ToolProvider) (owner name : Option String)
      (r r' : ToolRegistry)
      → Built r
      → register_provider show provider owner name r ≡ ok r'
      → Built r'
  provider_replaced :
      (name : String) (provider : ToolProvider) (predecessor : String) (owner : Option String)
      (r r' : ToolRegistry)
      → Built r
      → replace_provider name provider predecessor owner r ≡ ok r'
      → Built r'

-- Each tool is under its own name.
abbrev pub AreKeyed : List (String × HarnessTool) → Type 0
AreKeyed tools =
    (name : String) (tool : HarnessTool) → lookup name tools ≡ some tool → tool.name ≡ name

pub insert-AreKeyed :
    (tool : HarnessTool) (tools : List (String × HarnessTool))
    → AreKeyed tools
    → AreKeyed (insert tool.name tool tools)
insert-AreKeyed tool tools h name other is =
    let found : (if str_eq tool.name name then some tool else lookup name tools) ≡ some other =
      sym (lookup-insert tool.name name tool tools) ∙ is in
    elim (Bool-cases (str_eq tool.name name)) [
      | inl same ↦
          let it : some tool ≡ some other = rw same at found in
          let eq : tool.name ≡ name = ground (arith, eq_iff tool.name name) in cc
      | inr no_match ↦ h name other (rw no_match at found)
    ]

remove-AreKeyed :
    (key : String) (tools : List (String × HarnessTool))
    → AreKeyed tools
    → AreKeyed (remove key tools)
remove-AreKeyed key tools h name other is =
    let found : (if str_eq key name then none else lookup name tools) ≡ some other =
      sym (lookup-remove key name tools) ∙ is in
    elim (Bool-cases (str_eq key name)) [
      | inl same ↦ cc (rw same at found)
      | inr no_match ↦ h name other (rw no_match at found)
    ]

cleared-AreKeyed :
    (b : Bool) (name : String) (r : ToolRegistry)
    → AreKeyed r.tools
    → AreKeyed (if b then cleared name r else r).tools
cleared-AreKeyed true name r h = remove-AreKeyed name r.tools h
cleared-AreKeyed false name r h = h

-- What `claim` does with the label of the owner.
abbrev claim_as :
    (name source : String) (predecessor : Option String)
    → ToolRegistry
    → (label : String) → Result (String × ToolRegistry)
claim_as name source predecessor r label =
    check_claim (is_strict r) r.agent name label (lookup name r.metadata) predecessor
    >> ok (label, claimed name label source predecessor r)

claim-AreKeyed :
    (name : String) (owner : Option String) (source : String) (predecessor : Option String)
    (r : ToolRegistry) (c : String × ToolRegistry)
    → AreKeyed r.tools
    → claim name owner source predecessor r ≡ ok c
    → AreKeyed c.1.tools
unfolding claim
claim-AreKeyed name owner source predecessor r c h is =
    let (label, its, more) =
      first_ok (registration_owner owner r.agent) (claim_as name source predecessor r) c is in
    let (u, checks, ends) =
      first_ok (check_claim (is_strict r) r.agent name label (lookup name r.metadata) predecessor)
        (λ _. ok (label, claimed name label source predecessor r)) c more in
    let same : c.1 ≡ claimed name label source predecessor r =
      ap (λ p. p.1) (sym (ok_unique refl ends)) in
    rw same (cleared-AreKeyed (is_strict r || is_named predecessor) name r h)

tool-AreKeyed :
    (tool : HarnessTool) (owner : Option String) (predecessor : Option String) (r r' : ToolRegistry)
    → AreKeyed r.tools
    → (claim tool.name owner "static" predecessor r >>= λ c. ok (with_tool tool c)) ≡ ok r'
    → AreKeyed r'.tools
tool-AreKeyed tool owner predecessor r r' h is =
    let (c, its, ends) =
      first_ok (claim tool.name owner "static" predecessor r) (λ c. ok (with_tool tool c)) r' is in
    let keyed = claim-AreKeyed tool.name owner "static" predecessor r c h its in
    let same : r' ≡ with_tool tool c = sym (ok_unique refl ends) in
    rw same (insert-AreKeyed tool c.1.tools keyed)

factory-AreKeyed :
    (name : String) (factory : ToolFactory) (owner : Option String) (predecessor : Option String)
    (r r' : ToolRegistry)
    → AreKeyed r.tools
    → (claim name owner "factory" predecessor r >>= λ c. ok (with_factory name factory c)) ≡ ok r'
    → AreKeyed r'.tools
factory-AreKeyed name factory owner predecessor r r' h is =
    let (c, its, ends) =
      first_ok (claim name owner "factory" predecessor r) (λ c. ok (with_factory name factory c)) r'
        is in
    let keyed = claim-AreKeyed name owner "factory" predecessor r c h its in
    let same : r' ≡ with_factory name factory c = sym (ok_unique refl ends) in rw same keyed

abbrev AddsProvider : Result ToolRegistry → ToolRegistry → Type 0
AddsProvider done r = (r' : ToolRegistry) → done ≡ ok r' → r'.tools ≡ r.tools

register_provider-tools :
    (show : ℕ → String) (provider : ToolProvider) (owner name : Option String) (r : ToolRegistry)
    → AddsProvider (register_provider show provider owner name r) r
unfolding register_provider
register_provider-tools show provider owner name r r' is =
    let (label, its, more) = first_ok (registration_owner owner r.agent) _ r' is in
    let (identifier, named, rest) =
      first_ok (provider_name (show (length r.providers)) r.agent name) _ r' more in
    let (u, free, ends) =
      first_ok
        (check_provider (is_strict r) r.agent identifier label (lookup identifier r.providers)) _ r'
        rest in
    ap (λ t. t.tools) (sym (ok_unique refl ends))

replace_provider-tools :
    (name : String) (provider : ToolProvider) (predecessor : String) (owner : Option String)
    (r : ToolRegistry)
    → AddsProvider (replace_provider name provider predecessor owner r) r
unfolding replace_provider
replace_provider-tools name provider predecessor owner r r' is =
    let (label, its, more) = first_ok (registration_owner owner r.agent) _ r' is in
    let (u, free, ends) =
      first_ok (check_successor predecessor (lookup name r.providers)) _ r' more in
    ap (λ t. t.tools) (sym (ok_unique refl ends))

pub Built-AreKeyed : (r : ToolRegistry) → Built r → AreKeyed r.tools
unfolding new_registry register register_factory replace replace_factory
Built-AreKeyed _ (is_new agent strict) = λ name tool is. cc
Built-AreKeyed _ (registered tool owner r r' built is) =
    tool-AreKeyed tool owner none r r' (Built-AreKeyed r built) is
Built-AreKeyed _ (factory_registered name factory owner r r' built is) =
    factory-AreKeyed name factory owner none r r' (Built-AreKeyed r built) is
Built-AreKeyed _ (replaced tool predecessor owner r r' built is) =
    tool-AreKeyed tool owner (some predecessor) r r' (Built-AreKeyed r built) is
Built-AreKeyed _ (factory_replaced name factory predecessor owner r r' built is) =
    factory-AreKeyed name factory owner (some predecessor) r r' (Built-AreKeyed r built) is
Built-AreKeyed _ (provider_registered show provider owner name r r' built is) =
    rw (register_provider-tools show provider owner name r r' is) (Built-AreKeyed r built)
Built-AreKeyed _ (provider_replaced name provider predecessor owner r r' built is) =
    rw (replace_provider-tools name provider predecessor owner r r' is) (Built-AreKeyed r built)
