-- ===== src/Tasks/Order.antt =====
-- The order of the list, and its ids: no action moves, drops or renames a task.
use mathlib.Core.List.{append-nil, append_assoc, map-append}
use prism_harness_py.Prelude.{
  ℕ, String, Bool, false, ◌||◌, Option, some, List, [], ◌∷◌, ◌++◌, map, any, ◌≡◌, inl, inr, refl,
  sym, ap, ◌∙◌, arith, Bool-cases, eq_iff,
}
use prism_harness_py.Value.{Value, str, Fields, get, is_text, get-put}
use prism_harness_py.Result.{ok, Result-cases}
use prism_harness_py.Python.{Python}
use prism_harness_py.Tasks.Record.{StoredTask, new_record, expire}
use prism_harness_py.Tasks.Listing.{update_first, append_each, chosen_id, has_id}
use prism_harness_py.Tasks.Source.{hold_record}
use prism_harness_py.Tasks.Expiry.{id-expire_record}

abbrev pub ids : List Fields → List (Option Value)
ids = map (get "id")

-- Every id is a text, and no other entry has it.
abbrev pub Distinct : List (Option Value) → Type 0
Distinct [] = Unit
Distinct (o ∷ os) =
    (t : String) × (o ≡ some (str t)) × (any (λ p. is_text p t) os ≡ false) × Distinct os

pub ids-expire : (now : ℕ) (rs : List Fields) → ids (expire now rs) ≡ ids rs
unfolding expire
ids-expire now [] = refl
ids-expire now (r ∷ rs) = cc (id-expire_record now r, ids-expire now rs)

pub ids-update_first :
    (q : Fields → Bool) (f : Fields → Fields) (keeps : (x : Fields) → get "id" (f x) ≡ get "id" x)
    (rs : List Fields)
    → ids (update_first q f rs) ≡ ids rs
unfolding update_first
ids-update_first q f keeps [] = refl
ids-update_first q f keeps (r ∷ rs) = ground (arith, keeps r, ids-update_first q f keeps rs)

pub id-hold_record :
    (now granted : ℕ) (r : Fields) → get "id" (hold_record now granted r) ≡ get "id" r
id-hold_record now granted r = simp get-put

any-append :
    (p : Option Value → Bool) (xs ys : List (Option Value))
    → any p (xs ++ ys) ≡ (any p xs || any p ys)
any-append p [] ys = refl
any-append p (x ∷ xs) ys = ground (arith, any-append p xs ys)

-- One more id, which no entry has.
Distinct-append :
    (os : List (Option Value)) (t : String)
    → Distinct os
    → any (λ p. is_text p t) os ≡ false
    → Distinct (os ++ (some (str t) ∷ []))
Distinct-append [] t d fresh = (t, refl, refl, tt)
Distinct-append (o ∷ os) t (u, is, apart, rest) fresh = (
  u,
  is,
  ground (arith, any-append (λ p. is_text p u) os (some (str t) ∷ []), eq_iff t u, eq_iff u t),
  Distinct-append os t rest (ground arith),
)

any-ids : (t : String) (rs : List Fields) → any (λ p. is_text p t) (ids rs) ≡ any (has_id t) rs
any-ids t [] = refl
any-ids t (r ∷ rs) = ap (λ b. is_text (get "id" r) t || b) (any-ids t rs)

-- What an operation does to the ids: it appends some, which no entry has.
pub record Extended (before after : List (Option Value)) : Type 0 where
  pub extra : List (Option Value)
  pub appended : after ≡ before ++ extra
  pub distinct : Distinct before → Distinct after

pub same_ids : {before after : List (Option Value)} → after ≡ before → Extended before after
same_ids {before} e = record {
  extra = [];
  appended = e ∙ sym (append-nil before);
  distinct = λ d. rw e d;
}

pub Extended-trans : {a b c : List (Option Value)} → Extended a b → Extended b c → Extended a c
Extended-trans {a} p q = record {
  extra = p.extra ++ q.extra;
  appended = q.appended ∙ (ap (λ l. l ++ q.extra) p.appended ∙ append_assoc a p.extra q.extra);
  distinct = λ d. q.distinct (p.distinct d);
}

module _ ⦃py : Python⦄ where
  append_one :
      (records : List Fields) (id instruction : String)
      → any (has_id id) records ≡ false
      → Extended (ids records) (ids (records ++ (new_record id instruction ∷ [])))
  append_one records id instruction fresh =
      let grown = map-append (get "id") records (new_record id instruction ∷ []) in
      record {
        extra = some (str id) ∷ [];
        appended = grown;
        distinct = λ d. rw grown (Distinct-append (ids records) id d (any-ids id records ∙ fresh));
      }

  pub append_each-Extended :
      (records : List Fields) (items : List (String × Option String)) (grown : List Fields)
      (added : List StoredTask)
      → append_each records items ≡ ok (grown, added)
      → Extended (ids records) (ids grown)
  unfolding append_each
  append_each-Extended records [] grown added h = same_ids (ap ids (ground arith))
  append_each-Extended records ((instruction, given) ∷ rest) grown added h =
      let id = chosen_id records given in
      elim (Bool-cases (any (has_id id) records)) [
        | inl taken ↦ ground arith
        | inr fresh ↦
            elim (Result-cases (append_each (records ++ (new_record id instruction ∷ [])) rest)) [
              | inr (e, refused) ↦ ground arith
              | inl ((g, a), more) ↦
                  let same : grown ≡ g = ground arith in
                  Extended-trans (append_one records id instruction fresh) (
                    rw same (
                      append_each-Extended (records ++ (new_record id instruction ∷ [])) rest g a
                        more))
            ]
      ]
