-- ===== src/Tools/Named.antt =====
-- What a strict registry resolves goes by the names that were asked for.
use prism_harness_py.Prelude.{
  String, true, false, some, List, [], ◌∷◌, ◌≡◌, inl, inr, refl, sym, ◌∙◌, ap, arith, eq_iff,
  str_eq, Bool-cases, Option-cases,
}
use prism_harness_py.Prelude.Assoc.{lookup, insert, is_in}
use prism_harness_py.Result.{ok, err, ok_unique, Result-cases}
use prism_harness_py.Exec.{pure, lift, ◌>>=◌, first_returned}
use prism_harness_py.Session.{Session}
use prism_harness_py.Tools.Tool.{HarnessTool, ToolFactory, ToolProvider, ResolvedTool}
use prism_harness_py.Tools.Registry.{ToolRegistry, is_strict}
use prism_harness_py.Tools.Built.{AreKeyed, insert-AreKeyed}
use prism_harness_py.Tools.Resolving.{
  wrongly_named, built_by, at_key, resolved_tool, own_built, details, note_built, taken, Provided,
  provide_one, provide_each, provide_all, existing, found, build, check_built, factory_or_refuse,
  resolve_one, resolve_each, selected, available, resolve_detailed,
}

-- Every tool has one of the names.
abbrev pub AreNamed : List String → List (String × ResolvedTool) → Type 0
AreNamed names [] = Unit
AreNamed names ((key, entry) ∷ resolved) =
    (is_in entry.tool.name names ≡ true) × AreNamed names resolved

insert-AreNamed :
    (names : List String) (name : String) (entry : ResolvedTool)
    (resolved : List (String × ResolvedTool))
    → is_in entry.tool.name names ≡ true
    → AreNamed names resolved
    → AreNamed names (insert name entry resolved)
insert-AreNamed names name entry [] h k = (h, tt)
insert-AreNamed names name entry ((key, e) ∷ resolved) h k = elim (Bool-cases (str_eq key name)) [
  | inl same ↦ rw same (h, k.1)
  | inr other ↦ rw other (k.0, insert-AreNamed names name entry resolved h k.1)
]

first_in : (name : String) (names : List String) → is_in name (name ∷ names) ≡ true
first_in name names = ground (arith, eq_iff name name)

later_in :
    (n name : String) (names : List String) → is_in n names ≡ true → is_in n (name ∷ names) ≡ true
later_in n name names h = ground arith

refused_other :
    (r : ToolRegistry) (name built : String) (metadata : List (String × (String × String)))
    → str_eq built name ≡ false
    → is_strict r ≡ true
    → check_built r name built metadata ≡ err (wrongly_named name built)
refused_other r name built metadata other strict = ground arith

module _ (r : ToolRegistry) (strict : is_strict r ≡ true) (keyed : AreKeyed r.tools) where
  provide_one-AreKeyed :
      (owner : String) (tool : HarnessTool) (p q : Provided)
      → AreKeyed p.tools
      → provide_one r owner tool p ≡ ok q
      → AreKeyed q.tools
  provide_one-AreKeyed owner tool p q h is =
      elim (Option-cases (taken (is_strict r) (lookup tool.name p.metadata))) [
        | inr (previous, was) ↦ cc (rw (was, provide_one) at is)
        | inl free ↦
            let same : q.tools ≡ insert tool.name tool p.tools =
              ap (λ t. t.tools) (sym (ok_unique refl (rw (free, provide_one) at is))) in
            rw same (insert-AreKeyed tool p.tools h)
      ]

  provide_each-AreKeyed :
      (owner : String) (tools : List HarnessTool) (p q : Provided)
      → AreKeyed p.tools
      → provide_each r owner tools p ≡ ok q
      → AreKeyed q.tools
  provide_each-AreKeyed owner [] p q h is = let same : q ≡ p = sym (ok_unique refl is) in rw same h
  provide_each-AreKeyed owner (tool ∷ tools) p q h is =
      elim (Result-cases (provide_one r owner tool p)) [
        | inr (e, was) ↦ cc (rw (was, provide_each) at is)
        | inl (next, was) ↦
            provide_each-AreKeyed owner tools next q (provide_one-AreKeyed owner tool p next h was)
              (rw (was, provide_each) at is)
      ]

  provide_all-AreKeyed :
      (providers : List (String × (ToolProvider × String))) (p q : Provided) (s t : Session)
      → AreKeyed p.tools
      → provide_all r providers p s ≡ (ok q, t)
      → AreKeyed q.tools
  unfolding provide_all
  provide_all-AreKeyed [] p q s t h is =
      let same : q ≡ p = sym (ok_unique refl (ap (λ c. c.0) is)) in rw same h
  provide_all-AreKeyed ((key, (provider, owner)) ∷ providers) p q s t h is =
      let (tools, s1, gave, more) =
        first_returned provider
          (λ tools. lift (provide_each r owner tools p) >>= provide_all r providers) s t q is in
      let (next, s2, put, rest) =
        first_returned (lift (provide_each r owner tools p)) (provide_all r providers) s1 t q
          more in
      provide_all-AreKeyed providers next q s2 t
        (provide_each-AreKeyed owner tools p next h (ap (λ c. c.0) put)) rest

  existing-name :
      (p : Provided) (name : String) (tool : HarnessTool)
      → AreKeyed p.tools
      → existing r p name ≡ some tool
      → tool.name ≡ name
  existing-name p name tool h is = elim (Option-cases (lookup name r.tools)) [
    | inl no_tool ↦ h name tool (rw (no_tool, existing) at is)
    | inr (other, there) ↦ keyed name tool (there ∙ rw (there, existing) at is)
  ]

  check_built-name :
      (name built : String) (metadata noted : List (String × (String × String)))
      → check_built r name built metadata ≡ ok noted
      → built ≡ name
  check_built-name name built metadata noted is = elim (Bool-cases (str_eq built name)) [
    | inl same ↦ ground (arith, eq_iff built name)
    | inr other ↦ cc (is, refused_other r name built metadata other strict)
  ]

  build-name :
      (p q : Provided) (name : String) (factory : ToolFactory) (s t : Session) (one : ResolvedTool)
      → build r p name factory s ≡ (ok (one, q), t)
      → (one.tool.name ≡ name) × (q.tools ≡ p.tools)
  build-name p q name factory s t one is =
      let (tool, s1, made, more) = first_returned factory (note_built r p name) s t (one, q) is in
      let (metadata, s2, noted, rest) =
        first_returned (lift (check_built r name tool.name p.metadata)) (own_built r p name tool) s1
          t (one, q) more in
      let (owner, s3, had, ends) =
        first_returned (lift (at_key name r.factory_owners)) (built_by p tool metadata) s2 t
          (one, q) rest in
      let named = check_built-name name tool.name p.metadata metadata (ap (λ c. c.0) noted) in
      let same : (one, q) ≡ (
        record { tool = tool; owner = owner; source = "factory" },
        record p { metadata = metadata },
      ) =
        sym (ok_unique refl (ap (λ c. c.0) ends)) in
      (ap (λ c. c.0.tool.name) same ∙ named, ap (λ c. c.1.tools) same)

  found-name :
      (p q : Provided) (name : String) (tool : HarnessTool) (s t : Session) (one : ResolvedTool)
      → found r p name tool s ≡ (ok (one, q), t)
      → (one.tool ≡ tool) × (q ≡ p)
  found-name p q name tool s t one is =
      let (noted, s1, had, ends) =
        first_returned (lift (details r p name)) (λ noted. pure (resolved_tool tool noted, p)) s t
          (one, q) is in
      let same : (one, q) ≡ (resolved_tool tool noted, p) =
        sym (ok_unique refl (ap (λ c. c.0) ends)) in
      (ap (λ c. c.0.tool) same, ap (λ c. c.1) same)

  resolve_one-name :
      (p q : Provided) (name : String) (s t : Session) (one : ResolvedTool)
      → AreKeyed p.tools
      → resolve_one r p name s ≡ (ok (one, q), t)
      → (one.tool.name ≡ name) × (q.tools ≡ p.tools)
  resolve_one-name p q name s t one h is = elim (Option-cases (existing r p name)) [
    | inr (tool, there) ↦
        let (same, kept) = found-name p q name tool s t one (rw (there, resolve_one) at is) in
        (ap (λ x. x.name) same ∙ existing-name p name tool h there, ap (λ x. x.tools) kept)
    | inl no_tool ↦ elim (Option-cases (lookup name r.factories)) [
      | inl no_factory ↦ cc (rw (no_tool, no_factory, resolve_one, factory_or_refuse) at is)
      | inr (factory, there) ↦
          build-name p q name factory s t one
            (rw (no_tool, there, resolve_one, factory_or_refuse) at is)
    ]
  ]

  resolve_each-AreNamed :
      (allowed : List String) (p : Provided) (names : List String)
      (resolved result : List (String × ResolvedTool)) (s t : Session)
      → AreKeyed p.tools
      → ((name : String) → is_in name names ≡ true → is_in name allowed ≡ true)
      → AreNamed allowed resolved
      → resolve_each r p names resolved s ≡ (ok result, t)
      → AreNamed allowed result
  unfolding resolve_each
  resolve_each-AreNamed allowed p [] resolved result s t h within done is =
      let same : result ≡ resolved = sym (ok_unique refl (ap (λ c. c.0) is)) in rw same done
  resolve_each-AreNamed allowed p (name ∷ names) resolved result s t h within done is =
      let ((one, q), s1, had, more) =
        first_returned (resolve_one r p name)
          (λ one. resolve_each r one.1 names (insert name one.0 resolved)) s t result is in
      let (named, kept) = resolve_one-name p q name s s1 one h had in
      let listed : is_in one.tool.name allowed ≡ true =
        rw named (within name (first_in name names)) in
      let keyed' : AreKeyed q.tools = rw kept h in
      resolve_each-AreNamed allowed q names (insert name one resolved) result s1 t keyed'
        (λ n has. within n (later_in n name names has))
        (insert-AreNamed allowed name one resolved listed done) more

  -- What is resolved for names that have no star among them.
  pub resolve_detailed-AreNamed :
      (names : List String) (result : List (String × ResolvedTool)) (s t : Session)
      → is_in "*" names ≡ false
      → resolve_detailed r names s ≡ (ok result, t)
      → AreNamed names result
  unfolding resolve_detailed
  resolve_detailed-AreNamed names result s t closed is =
      let none_yet : Provided = record { tools = []; metadata = r.metadata } in
      let (p, s1, had, more) =
        first_returned (provide_all r r.providers none_yet)
          (λ p. resolve_each r p (selected names (available r p)) []) s t result is in
      let keyed' = provide_all-AreKeyed r.providers none_yet p s s1 (λ name tool there. cc) had in
      let more' : resolve_each r p names [] s1 ≡ (ok result, t) = rw (closed, selected) at more in
      resolve_each-AreNamed names p names [] result s1 t keyed' (λ name has. has) tt more'
