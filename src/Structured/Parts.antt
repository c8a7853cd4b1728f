-- ===== src/Structured/Parts.antt =====
-- The loops of the check, each with what it means that it reports nothing.
use prism_harness_py.Prelude.{
  ℕ, suc, ◌<◌, String, true, Option, none, some, List, [], ◌∷◌, ◌++◌, ◌≡◌, inl, inr, ◌↔◌, ◌≢◌, refl,
  sym, ap, subst, ◌∙◌, arith, Bool-cases, str_eq, eq_iff, eq_refl,
}
use prism_harness_py.Value.{
  Value, null, bool, int, float, str, arr, obj, Fields, end, field, get, contains,
}
use prism_harness_py.Python.{Python}
use prism_harness_py.Structured.Check.{
  Problem, each_item, each_property, check_property, any_branch, missing_names, undeclared_names,
  is_nil, is_elem, size, below, item_path,
}
use prism_harness_py.Structured.Conforms.{IsIn, IsUnder, Conforms}

pub append-nil_iff : (xs ys : List Problem) → (xs ++ ys ≡ []) ↔ ((xs ≡ []) × (ys ≡ []))
append-nil_iff [] ys = (λ h. (refl, h), λ h. h.1)
append-nil_iff (x ∷ xs) ys = (λ h. cc, λ h. cc h.0)

pub missing_names-nil_iff :
    (path : String) (names : List String) (d : Fields)
    → (missing_names path names d ≡ [])
      ↔ ((name : String) → is_elem name names ≡ true → contains name d ≡ true)
unfolding missing_names
missing_names-nil_iff path [] d = (λ h name i. cc, λ h. refl)
missing_names-nil_iff path (n ∷ names) d = elim (Bool-cases (contains n d)) [
  | inr absent ↦
      (λ h name i. ground arith, λ h. let found = h n (ground (arith, eq_refl n)) in ground arith)
  | inl present ↦ (
    λ h name i. elim (Bool-cases (str_eq name n)) [
      | inl same ↦ let is = (eq_iff name n).0 same in rw is present
      | inr other ↦ (missing_names-nil_iff path names d).0 (ground arith) name (ground arith)
    ],
    λ h.
        let rest = (missing_names-nil_iff path names d).1 (λ name i. h name (ground arith)) in
        ground arith,
  )
]

pub undeclared_names-nil_iff :
    (path : String) (props d : Fields)
    → (undeclared_names path props d ≡ [])
      ↔ ((name : String) → contains name d ≡ true → contains name props ≡ true)
unfolding undeclared_names
undeclared_names-nil_iff path props end = (λ h name i. cc, λ h. refl)
undeclared_names-nil_iff path props (field k v d) = elim (Bool-cases (contains k props)) [
  | inr absent ↦
      (λ h name i. ground arith, λ h. let found = h k (ground (arith, eq_refl k)) in ground arith)
  | inl present ↦ (
    λ h name i. elim (Bool-cases (str_eq k name)) [
      | inl same ↦ let is = (eq_iff k name).0 same in rw (← is) present
      | inr other ↦ (undeclared_names-nil_iff path props d).0 (ground arith) name (ground arith)
    ],
    λ h.
        let rest = (undeclared_names-nil_iff path props d).1 (λ name i. h name (ground arith)) in
        ground arith,
  )
]

is_nil_iff : (ps : List Problem) → (is_nil ps ≡ true) ↔ (ps ≡ [])
is_nil_iff [] = (λ h. refl, λ h. refl)
is_nil_iff (p ∷ ps) = (λ h. cc, λ h. cc)

-- A check of the schemas below a size, and what it stands for.
abbrev pub Decides : ℕ → (Fields → Value → String → List Problem) → Type 0
Decides n recur =
    (p : Fields) → size p < n → (x : Value) (path : String) → (recur p x path ≡ []) ↔ Conforms p x

-- There is a branch that the value conforms to.
abbrev pub HasBranch : List Value → Value → Type 0
HasBranch bs v = (b : Fields) × IsIn (obj b) bs × Conforms b v

-- Every property that the document has conforms to its schema.
abbrev pub PropertiesMet : (props document : Fields) → Type 0
PropertiesMet props d =
    (name : String) (prop : Fields) (x : Value)
    → IsUnder name (obj prop) props
    → get name d ≡ some x
    → Conforms prop x

module _ ⦃py : Python⦄ (recur : Fields → Value → String → List Problem) (n : ℕ)
    (right : Decides n recur) where
  skipped :
      (b : Value) (bs : List Value) (v : Value) (path : String)
      → ((c : Fields) → b ≢ obj c)
      → (any_branch recur bs v path ≡ true) ↔ HasBranch bs v
      → (any_branch recur bs v path ≡ true) ↔ HasBranch (b ∷ bs) v
  skipped b bs v path none_is t = (
    λ h. let (c, i, fits) = t.0 h in (c, inr i, fits),
    λ (c, i, fits). elim i [ inl is ↦ absurd (none_is c is) | inr j ↦ t.1 (c, j, fits) ],
  )

  tried :
      (b : Fields) (bs : List Value) (v : Value) (path : String)
      → size b < n
      → (any_branch recur bs v path ≡ true) ↔ HasBranch bs v
      → (any_branch recur (obj b ∷ bs) v path ≡ true) ↔ HasBranch (obj b ∷ bs) v
  tried b bs v path small t = elim (Bool-cases (is_nil (recur b v path))) [
    | inl fits ↦ (
      λ h. (b, inl refl, (right b small v path).0 ((is_nil_iff (recur b v path)).0 fits)),
      λ h. ground arith,
    )
    | inr misses ↦ (
      λ h. let (c, i, fits) = t.0 (ground arith) in (c, inr i, fits),
      λ (c, i, fits). elim i [
        | inl is ↦
            let same : b ≡ c = cc is in
            let met =
              (is_nil_iff (recur b v path)).1
                ((right b small v path).1 (subst (λ x. Conforms x v) (sym same) fits)) in
            ground arith
        | inr j ↦ let found = t.1 (c, j, fits) in ground arith
      ],
    )
  ]

  pub any_branch_iff :
      (bs : List Value) (v : Value) (path : String)
      → ((b : Fields) → IsIn (obj b) bs → size b < n)
      → (any_branch recur bs v path ≡ true) ↔ HasBranch bs v
  any_branch_iff [] v path small = (λ h. cc, λ h. absurd h.1)
  any_branch_iff (obj c ∷ bs) v path small =
      tried c bs v path (small c (inl refl)) (any_branch_iff bs v path (λ c i. small c (inr i)))
  any_branch_iff (null ∷ bs) v path small =
      skipped null bs v path (λ c h. cc) (any_branch_iff bs v path (λ c i. small c (inr i)))
  any_branch_iff (bool x ∷ bs) v path small =
      skipped (bool x) bs v path (λ c h. cc) (any_branch_iff bs v path (λ c i. small c (inr i)))
  any_branch_iff (int x ∷ bs) v path small =
      skipped (int x) bs v path (λ c h. cc) (any_branch_iff bs v path (λ c i. small c (inr i)))
  any_branch_iff (float x ∷ bs) v path small =
      skipped (float x) bs v path (λ c h. cc) (any_branch_iff bs v path (λ c i. small c (inr i)))
  any_branch_iff (str x ∷ bs) v path small =
      skipped (str x) bs v path (λ c h. cc) (any_branch_iff bs v path (λ c i. small c (inr i)))
  any_branch_iff (arr x ∷ bs) v path small =
      skipped (arr x) bs v path (λ c h. cc) (any_branch_iff bs v path (λ c i. small c (inr i)))

  property_iff :
      (name : String) (p : Value) (o : Option Value) (path : String)
      → ((b : Fields) → p ≡ obj b → size b < n)
      → (check_property recur name p o path ≡ [])
        ↔ ((b : Fields) (x : Value) → p ≡ obj b → o ≡ some x → Conforms b x)
  property_iff name (obj b) (some x) path small =
      let r = right b (small b refl) x (below path name) in
      (
        λ h c y e f.
            let eb : b ≡ c = cc e in
            let ex : x ≡ y = cc f in
            subst (λ z. Conforms c z) ex (subst (λ z. Conforms z x) eb (r.0 h)),
        λ h. r.1 (h b x refl refl),
      )
  property_iff name (obj b) none path small = (λ h c y e f. cc, λ h. refl)
  property_iff name null o path small = (λ h c y e f. cc, λ h. refl)
  property_iff name (bool z) o path small = (λ h c y e f. cc, λ h. refl)
  property_iff name (int z) o path small = (λ h c y e f. cc, λ h. refl)
  property_iff name (float z) o path small = (λ h c y e f. cc, λ h. refl)
  property_iff name (str z) o path small = (λ h c y e f. cc, λ h. refl)
  property_iff name (arr z) o path small = (λ h c y e f. cc, λ h. refl)

  pub each_property_iff :
      (props d : Fields) (path : String)
      → ((name : String) (b : Fields) → IsUnder name (obj b) props → size b < n)
      → (each_property recur props d path ≡ []) ↔ PropertiesMet props d
  each_property_iff end d path small = (λ h name prop x u. absurd u, λ h. refl)
  each_property_iff (field k p props) d path small =
      let one = property_iff k p (get k d) path (λ b e. small k b (inl (refl, e))) in
      let more = each_property_iff props d path (λ name b u. small name b (inr u)) in
      let both =
        append-nil_iff (check_property recur k p (get k d) path)
          (each_property recur props d path) in
      (
        λ h name prop x u got. elim u [
          | inl (same, is) ↦ one.0 (both.0 h).0 prop x is (ap (λ z. get z d) same ∙ got)
          | inr rest ↦ more.0 (both.0 h).1 name prop x rest got
        ],
        λ h. both.1 (
          one.1 (λ b x e got. h k b x (inl (refl, e)) got),
          more.1 (λ name prop x u. h name prop x (inr u)),
        ),
      )

  pub each_item_iff :
      (item : Fields) (vs : List Value) (path : String) (index : ℕ)
      → size item < n
      → (each_item recur item vs path index ≡ []) ↔ ((x : Value) → IsIn x vs → Conforms item x)
  each_item_iff item [] path index small = (λ h x i. absurd i, λ h. refl)
  each_item_iff item (v ∷ vs) path index small =
      let one = right item small v (item_path path index) in
      let more = each_item_iff item vs path (suc index) small in
      let both =
        append-nil_iff (recur item v (item_path path index))
          (each_item recur item vs path (suc index)) in
      (
        λ h x i. elim i [
          | inl is ↦ subst (Conforms item) is (one.0 (both.0 h).0)
          | inr rest ↦ more.0 (both.0 h).1 x rest
        ],
        λ h. both.1 (one.1 (h v (inl refl)), more.1 (λ x i. h x (inr i))),
      )
