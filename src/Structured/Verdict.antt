-- ===== src/Structured/Verdict.antt =====
-- The check reports nothing exactly of the documents that conform.
use prism_harness_py.Prelude.{
  ℕ, zero, suc, ◌<◌, String, true, Option, none, some, List, [], ◌∷◌, any, ◌≡◌, ◌⊎◌, inl, inr, ◌↔◌,
  ◌≢◌, refl, sym, ◌∙◌, arith, Bool-cases, Option-cases, if◌then◌else◌,
}
use prism_harness_py.Value.{
  Value, null, bool, int, float, str, arr, obj, Fields, get, contains, to_list,
}
use prism_harness_py.Python.{Python}
use prism_harness_py.Structured.Check.{
  Problem, check, check_body, check_type, check_parts, check_object, check_array, each_property,
  any_branch, missing_names, undeclared_names, is_elem, size, schema_problems, list_at, same_json,
  matches, declared_types, required, properties, is_closed,
}
use prism_harness_py.Structured.Conforms.{
  IsIn, Conforms, alternative, enumerated, silent, typed, list_of,
}
use prism_harness_py.Structured.Sizes.{size-list_at, size-properties, size-items}
use prism_harness_py.Structured.Parts.{
  append-nil_iff, missing_names-nil_iff, undeclared_names-nil_iff, any_branch_iff,
  each_property_iff, each_item_iff, Decides, HasBranch, PropertiesMet,
}

-- What a typed schema asks of a value's parts.
record PartsConform (s : Fields) (v : Value) : Type 0 where
  names :
      (d : Fields)
      → v ≡ obj d
      → is_elem "object" (declared_types s) ≡ true
      → (name : String) → is_elem name (required s) ≡ true
      → contains name d ≡ true
  each :
      (d : Fields)
      → v ≡ obj d
      → is_elem "object" (declared_types s) ≡ true
      → PropertiesMet (properties s) d
  closed :
      (d : Fields)
      → v ≡ obj d
      → is_elem "object" (declared_types s) ≡ true
      → is_closed s ≡ true
      → (name : String) → contains name d ≡ true
      → contains name (properties s) ≡ true
  items :
      (vs : List Value) (item : Fields)
      → list_of v ≡ some vs
      → is_elem "array" (declared_types s) ≡ true
      → get "items" s ≡ some (obj item)
      → (x : Value) → IsIn x vs
      → Conforms item x

-- What a conforming value's schema says, by which of its keys speaks.
Conforms-any_of :
    {s : Fields} {v : Value}
    → Conforms s v
    → (bs : List Value) → list_at "anyOf" s ≡ some bs
    → HasBranch bs v
Conforms-any_of (alternative branches is b i fits) bs e =
    let same : branches ≡ bs = cc in (b, rw (← same) i, fits)
Conforms-any_of (enumerated ms is i m) bs e = cc
Conforms-any_of (silent is i t) bs e = cc
Conforms-any_of (typed is i t a b c d) bs e = cc

Conforms-enum :
    {s : Fields} {v : Value}
    → Conforms s v
    → list_at "anyOf" s ≡ none
    → (ms : List Value) → list_at "enum" s ≡ some ms
    → any (λ m. same_json m v) ms ≡ true
Conforms-enum (alternative branches is b i fits) absent ms e = cc
Conforms-enum (enumerated members is i m) absent ms e =
    let same : members ≡ ms = cc in rw (← same) m
Conforms-enum (silent is i t) absent ms e = cc
Conforms-enum (typed is i t a b c d) absent ms e = cc

Conforms-typed :
    {s : Fields} {v : Value}
    → Conforms s v
    → list_at "anyOf" s ≡ none
    → list_at "enum" s ≡ none
    → (declared_types s ≡ [])
      ⊎ ((any (λ t. matches t v) (declared_types s) ≡ true) × PartsConform s v)
Conforms-typed (alternative branches is b i fits) absent e = cc
Conforms-typed (enumerated members is i m) absent e = cc
Conforms-typed (silent is i t) absent e = inl t
Conforms-typed (typed is i t a b c d) absent e =
    inr (t, record { names = a; each = b; closed = c; items = d })

module _ ⦃py : Python⦄ (recur : Fields → Value → String → List Problem) (s : Fields)
    (right : Decides (size s) recur) where
  object_iff :
      (d : Fields) (path : String)
      → is_elem "object" (declared_types s) ≡ true
      → (check_object recur s d path ≡ []) ↔ PartsConform s (obj d)
  object_iff d path asked =
      let names = missing_names-nil_iff path (required s) d in
      let each = each_property_iff recur (size s) right (properties s) d path (size-properties s) in
      let extra = undeclared_names-nil_iff path (properties s) d in
      let outer = append-nil_iff (missing_names path (required s) d) _ in
      let inner =
        append-nil_iff (each_property recur (properties s) d path)
          (if is_closed s then undeclared_names path (properties s) d else []) in
      (
        λ h.
            let rest = inner.0 (outer.0 h).1 in
            record {
              names = λ e is asked. rw (← obj_inj is) (names.0 (outer.0 h).0);
              each = λ e is asked. rw (← obj_inj is) (each.0 rest.0);
              closed = λ e is asked shut. rw (← obj_inj is) (extra.0 (rw shut at rest.1));
              items = λ vs item is. cc;
            },
        λ h. outer.1 (
          names.1 (h.names d refl asked),
          inner.1 (
            each.1 (h.each d refl asked),
            unless_closed d path (λ shut. extra.1 (h.closed d refl asked shut)),
          ),
        ),
      )
    where
      obj_inj : {a b : Fields} → obj a ≡ obj b → a ≡ b
      obj_inj h = cc

      unless_closed :
          (d : Fields) (path : String)
          → (is_closed s ≡ true → undeclared_names path (properties s) d ≡ [])
          → (if is_closed s then undeclared_names path (properties s) d else []) ≡ []
      unless_closed d path h = elim (Bool-cases (is_closed s)) [
        | inl shut ↦ rw shut (h shut)
        | inr opened ↦ rw opened refl
      ]

  array_iff :
      (vs : List Value) (path : String)
      → (check_array recur s vs path ≡ []) ↔ (
          (item : Fields)
          → get "items" s ≡ some (obj item)
          → (x : Value) → IsIn x vs
          → Conforms item x)
  array_iff vs path = under (get "items" s) refl
    where
      Met : Type 0
      Met =
          (item : Fields)
          → get "items" s ≡ some (obj item)
          → (x : Value) → IsIn x vs
          → Conforms item x

      none_asked :
          check_array recur s vs path ≡ []
          → ((item : Fields) → get "items" s ≢ some (obj item))
          → (check_array recur s vs path ≡ []) ↔ Met
      none_asked e ne = (λ h item is. absurd (ne item is), λ h. e)

      under : (o : Option Value) → get "items" s ≡ o → (check_array recur s vs path ≡ []) ↔ Met
      under (some (obj item)) e =
          let each = each_item_iff recur (size s) right item vs path 0 (size-items s item e) in
          (
            λ h other is.
                let same : item ≡ other = cc (e, is) in
                rw (← same) (each.0 (rw (e, check_array) at h)),
            λ h. rw (e, check_array) (each.1 (h item e)),
          )
      under none e = none_asked (rw (e, check_array) refl) (λ item h. cc (e, h))
      under (some null) e = none_asked (rw (e, check_array) refl) (λ item h. cc (e, h))
      under (some (bool b)) e = none_asked (rw (e, check_array) refl) (λ item h. cc (e, h))
      under (some (int b)) e = none_asked (rw (e, check_array) refl) (λ item h. cc (e, h))
      under (some (float b)) e = none_asked (rw (e, check_array) refl) (λ item h. cc (e, h))
      under (some (str b)) e = none_asked (rw (e, check_array) refl) (λ item h. cc (e, h))
      under (some (arr b)) e = none_asked (rw (e, check_array) refl) (λ item h. cc (e, h))

  -- A value that is asked for no parts has none that miss.
  no_parts :
      (v : Value)
      → ((d : Fields) → v ≡ obj d → ⊥)
      → ((vs : List Value) → list_of v ≡ some vs → ⊥)
      → PartsConform s v
  no_parts v no_object no_array = record {
    names = λ d is. absurd (no_object d is);
    each = λ d is. absurd (no_object d is);
    closed = λ d is. absurd (no_object d is);
    items = λ vs item is. absurd (no_array vs is);
  }

  parts_iff :
      (v : Value) (path : String)
      → (check_parts recur s v path (declared_types s) ≡ []) ↔ PartsConform s v
  parts_iff (obj d) path = elim (Bool-cases (is_elem "object" (declared_types s))) [
    | inl asked ↦ rw asked (object_iff d path asked)
    | inr not_asked ↦ (
      λ h. record {
        names = λ e is asked. cc (not_asked, asked);
        each = λ e is asked. cc (not_asked, asked);
        closed = λ e is asked. cc (not_asked, asked);
        items = λ vs item is. cc;
      },
      λ h. rw not_asked refl,
    )
  ]
  parts_iff (arr vs) path = elim (Bool-cases (is_elem "array" (declared_types s))) [
    | inl asked ↦
        let each = array_iff (to_list vs) path in
        (
          λ h. record {
            names = λ d is. cc;
            each = λ d is. cc;
            closed = λ d is. cc;
            items = λ ws item is asked_too.
                let same : to_list vs ≡ ws = cc is in rw (← same) (each.0 (rw asked at h) item);
          },
          λ h. rw asked (each.1 (λ item. h.items (to_list vs) item refl asked)),
        )
    | inr not_asked ↦ (
      λ h. record {
        names = λ d is. cc;
        each = λ d is. cc;
        closed = λ d is. cc;
        items = λ ws item is asked. cc (not_asked, asked);
      },
      λ h. rw not_asked refl,
    )
  ]
  parts_iff null path = (λ h. no_parts null (λ d is. cc) (λ vs is. cc), λ h. refl)
  parts_iff (bool b) path = (λ h. no_parts (bool b) (λ d is. cc) (λ vs is. cc), λ h. refl)
  parts_iff (int b) path = (λ h. no_parts (int b) (λ d is. cc) (λ vs is. cc), λ h. refl)
  parts_iff (float b) path = (λ h. no_parts (float b) (λ d is. cc) (λ vs is. cc), λ h. refl)
  parts_iff (str b) path = (λ h. no_parts (str b) (λ d is. cc) (λ vs is. cc), λ h. refl)

  type_iff :
      (v : Value) (path : String)
      → list_at "anyOf" s ≡ none
      → list_at "enum" s ≡ none
      → (check_type recur s v path (declared_types s) ≡ []) ↔ Conforms s v
  type_iff v path plain free = by_types (declared_types s) refl
    where
      by_types :
          (ts : List String)
          → declared_types s ≡ ts
          → (check_type recur s v path (declared_types s) ≡ []) ↔ Conforms s v
      by_types [] e = (λ h. silent plain free e, λ h. rw (e, check_type) refl)
      by_types (t ∷ ts) e = elim (Bool-cases (any (λ d. matches d v) (t ∷ ts))) [
        | inr other ↦ (
          λ h. cc (rw (e, check_type, other) at h),
          λ h. elim (Conforms-typed h plain free) [
            | inl none_declared ↦ cc (e, none_declared)
            | inr (m, parts) ↦ cc (rw e at m, other)
          ],
        )
        | inl some_match ↦
            let same : check_type recur s v path (declared_types s)
                ≡ check_parts recur s v path (declared_types s) =
              rw (e, check_type, some_match) refl in
            let parts = parts_iff v path in
            (
              λ h.
                  let p = parts.0 (sym same ∙ h) in
                  typed plain free (rw e some_match) p.names p.each p.closed p.items,
              λ h. elim (Conforms-typed h plain free) [
                | inl none_declared ↦ cc (e, none_declared)
                | inr (m, p) ↦ same ∙ parts.1 p
              ],
            )
      ]

  body_iff : (v : Value) (path : String) → (check_body recur s v path ≡ []) ↔ Conforms s v
  body_iff v path = elim (Option-cases (list_at "anyOf" s)) [
    | inr (bs, e) ↦
        let branch =
          any_branch_iff recur (size s) right bs v path (λ b. size-list_at "anyOf" s bs b e) in
        elim (Bool-cases (any_branch recur bs v path)) [
          | inl fits ↦
              let (b, i, c) = branch.0 fits in
              (λ h. alternative bs e b i c, λ h. rw (check_body, e, fits) refl)
          | inr misses ↦ (
            λ h. cc (rw (check_body, e, misses) at h),
            λ h. cc (branch.1 (Conforms-any_of h bs e), misses),
          )
        ]
    | inl plain ↦ elim (Option-cases (list_at "enum" s)) [
      | inr (ms, e) ↦ elim (Bool-cases (any (λ m. same_json m v) ms)) [
        | inl found ↦ (λ h. enumerated ms plain e found, λ h. rw (check_body, plain, e, found) refl)
        | inr other ↦ (
          λ h. cc (rw (check_body, plain, e, other) at h),
          λ h. cc (Conforms-enum h plain ms e, other),
        )
      ]
      | inl free ↦
          let t = type_iff v path plain free in
          let same : check_body recur s v path ≡ check_type recur s v path (declared_types s) =
            rw (check_body, plain, free) refl in
          (λ h. t.0 (sym same ∙ h), λ h. same ∙ t.1 h)
    ]
  ]

check_iff :
    ⦃py : Python⦄ (n : ℕ) (s : Fields)
    → size s < n
    → (v : Value) (path : String) → (check n s v path ≡ []) ↔ Conforms s v
unfolding check
check_iff zero s small v path = absurd (omega arith)
check_iff (suc n) s small v path =
    body_iff (check n) s (λ p smaller x at. check_iff n p (omega arith) x at) v path

-- Of a schema and a document, whatever they are: the check reports no problem exactly when the
-- document conforms to the schema, at whatever path.
pub schema_problems-nil_iff :
    ⦃py : Python⦄ (schema : Fields) (document : Value) (name : String)
    → (schema_problems schema document name ≡ []) ↔ Conforms schema document
unfolding schema_problems
schema_problems-nil_iff schema document name =
    check_iff (suc (size schema)) schema (omega arith) document name
