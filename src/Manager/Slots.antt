-- ===== src/Manager/Slots.antt =====
-- A slot resolves to one store for good, and the durable slot to a durable one.
use prism_harness_py.Errors.{HarnessError, harness, Error}
use prism_harness_py.Prelude.{
  subst, ◌⊎◌, String, true, ◌&&◌, not, none, some, List, [], ◌∷◌, ◌≡◌, sym, ap, ◌∙◌, arith,
  Option-cases, Bool-cases, inl, inr, str_eq, eq_iff, eq_refl,
}
use prism_harness_py.Result.{ok, err}
use prism_harness_py.Store.{Durability, is_durable}
use prism_harness_py.Manager.{or_default, Manager, Handle, find, open_manager, resolve}

-- Any calls of `slot`, in any order.
abbrev pub resolve_all : List String → Manager → Manager
resolve_all [] m = m
resolve_all (s ∷ rest) m = resolve_all rest (resolve s m).1

abbrev pub IsSafe : Manager → Type 0
IsSafe m = (h : Handle) → find "durable" m.resolved ≡ some h → is_durable h.durability ≡ true

-- What a call of `slot` does: it answers with the store it kept, raises and keeps what it had, or
-- keeps a new store, a durable one in the durable slot.
record Made (slot : String) (m : Manager) : Type 0 where
  handle : Handle
  absent : find slot m.resolved ≡ none
  answers : (resolve slot m).0 ≡ ok handle
  kept : (resolve slot m).1.resolved ≡ (slot, handle) ∷ m.resolved
  safe : str_eq slot "durable" ≡ true → is_durable handle.durability ≡ true

resolve-cases :
    (slot : String) (m : Manager)
    → ((h : Handle) × (find slot m.resolved ≡ some h) × (resolve slot m ≡ (ok h, m)))
      ⊎ (((e : Error) × ((resolve slot m).0 ≡ err e) × ((resolve slot m).1.resolved ≡ m.resolved))
          ⊎ Made slot m)
unfolding resolve
resolve-cases slot m = elim (Option-cases (find slot m.resolved)) [
  | inr (h, cached) ↦ inl (h, cached, ground arith)
  | inl fresh ↦ elim (Option-cases (find (or_default (find slot m.slots)) m.drivers)) [
    | inl unknown ↦ inr (
        inl (
          harness (HarnessError.unknown_store_driver slot (or_default (find slot m.slots))),
          ground arith,
          ground arith,
        ))
    | inr (d, driver) ↦ elim (Bool-cases (str_eq slot "durable" && not (is_durable d))) [
      | inl volatile ↦ inr (
          inl (
            harness (HarnessError.volatile_durable_store slot (or_default (find slot m.slots))),
            ground arith,
            ground arith,
          ))
      | inr fits ↦ inr (
          inr (record {
            handle = record {
              driver = or_default (find slot m.slots);
              durability = d;
              serial = m.made;
            };
            absent = fresh;
            answers = ground arith;
            kept = ground arith;
            safe = λ is. ground arith;
          }))
    ]
  ]
]

resolve-IsSafe : (slot : String) (m : Manager) → IsSafe m → IsSafe (resolve slot m).1
resolve-IsSafe slot m safe h found = elim (resolve-cases slot m) [
  | inl (c, cached, e) ↦ safe h (ground arith)
  | inr (inl (e, raised, same)) ↦ safe h (ap (find "durable") (sym same) ∙ found)
  | inr (inr made) ↦ elim (Bool-cases (str_eq slot "durable")) [
    | inr other ↦ let kept = made.kept in safe h (ground arith)
    | inl durable_slot ↦
        let kept = made.kept in
        let same : made.handle ≡ h = ground arith in
        subst (λ x. is_durable x.durability ≡ true) same (made.safe durable_slot)
  ]
]

resolve-find :
    (slot : String) (m : Manager) (h : Handle)
    → (resolve slot m).0 ≡ ok h
    → find slot (resolve slot m).1.resolved ≡ some h
resolve-find slot m h got = elim (resolve-cases slot m) [
  | inl (c, cached, e) ↦ ground arith
  | inr (inl (e, raised, same)) ↦ ground arith
  | inr (inr made) ↦
      let kept = made.kept in let answers = made.answers in ground (arith, eq_refl slot)
]

find-resolve :
    (slot other : String) (m : Manager) (h : Handle)
    → find slot m.resolved ≡ some h
    → find slot (resolve other m).1.resolved ≡ some h
find-resolve slot other m h got = elim (resolve-cases other m) [
  | inl (c, cached, e) ↦ ground arith
  | inr (inl (e, raised, same)) ↦ ap (find slot) same ∙ got
  | inr (inr made) ↦
      let kept = made.kept in let absent = made.absent in ground (arith, eq_iff other slot)
]

find-resolve_all :
    (calls : List String) (slot : String) (m : Manager) (h : Handle)
    → find slot m.resolved ≡ some h
    → find slot (resolve_all calls m).resolved ≡ some h
find-resolve_all [] slot m h got = got
find-resolve_all (s ∷ rest) slot m h got =
    find-resolve_all rest slot (resolve s m).1 h (find-resolve slot s m h got)

resolve_all-IsSafe : (calls : List String) (m : Manager) → IsSafe m → IsSafe (resolve_all calls m)
resolve_all-IsSafe [] m safe = safe
resolve_all-IsSafe (s ∷ rest) m safe =
    resolve_all-IsSafe rest (resolve s m).1 (resolve-IsSafe s m safe)

-- Of a manager as it is opened, with whatever drivers and stores, and after any calls of `slot`: a
-- slot that resolves answers with that same store on every later call, whatever slots are asked for
-- in between, and for the durable slot that store is one that calls itself durable.
pub resolve_stable :
    (drivers : List (String × Durability)) (stores : List (String × String))
    (before between : List String) (slot : String) (h : Handle)
    → (resolve slot (resolve_all before (open_manager drivers stores))).0 ≡ ok h
    → ((resolve slot (
          resolve_all between
            (resolve slot (resolve_all before (open_manager drivers stores))).1)).0
        ≡ ok h)
      × (slot ≡ "durable" → is_durable h.durability ≡ true)
unfolding resolve open_manager
resolve_stable drivers stores before between slot h got =
    let start = open_manager drivers stores in
    let m = resolve_all before start in
    let kept = find-resolve_all between slot (resolve slot m).1 h (resolve-find slot m h got) in
    let safe = resolve-IsSafe slot m (resolve_all-IsSafe before start (λ x none_yet. cc)) in
    (
      ground arith,
      λ is.
          safe h (
            subst (λ s. find s (resolve slot m).1.resolved ≡ some h) is
              (resolve-find slot m h got)),
    )
