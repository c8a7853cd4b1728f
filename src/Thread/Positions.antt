-- ===== src/Thread/Positions.antt =====
-- Positions are the places in the conversation, whoever records and in whatever order.
use mathlib.Core.List.{append-nil}
use prism_harness_py.Prelude.{
  ℕ, suc, ◌+◌, String, true, false, Option, none, some, List, [], ◌∷◌, ◌++◌, map, length, ◌≡◌, inl,
  inr, refl, sym, ◌∙◌, arith, subst, Bool-cases,
}
use prism_harness_py.Prelude.Int.{pos}
use prism_harness_py.Value.{
  Value, null, bool, int, float, str, arr, obj, Fields, get, put, dicts, to_list, of_list,
  dicts-of_list,
}
use prism_harness_py.Value
use prism_harness_py.Result.{ok, Result-cases}
use prism_harness_py.Store.{World, get-put_self}
use prism_harness_py.Store
use prism_harness_py.Thread.{
  ThreadMessage, to_messages, entries, iterated, listed, new_entries, written, append,
  record_messages,
}

-- The entries are numbered on from `before`.
abbrev pub IsNumbered : (before : ℕ) → List Fields → Type 0
IsNumbered before [] = Unit
IsNumbered before (e ∷ es) =
    (get "position" e ≡ some (int (pos (before + 1)))) × IsNumbered (suc before) es

new_entries-IsNumbered :
    (before : ℕ) (batch : List Fields) (run_id : Option String) (at : String)
    → IsNumbered before (new_entries before batch run_id at)
new_entries-IsNumbered before [] run_id at = tt
new_entries-IsNumbered before (m ∷ batch) run_id at =
    (refl, new_entries-IsNumbered (suc before) batch run_id at)

IsNumbered-append :
    (before : ℕ) (xs ys : List Fields)
    → IsNumbered before xs
    → IsNumbered (before + length xs) ys
    → IsNumbered before (xs ++ ys)
IsNumbered-append before [] ys h k =
    let same : before + 0 ≡ before = omega arith in subst (λ n. IsNumbered n ys) same k
IsNumbered-append before (x ∷ xs) ys h k = (
  h.0,
  IsNumbered-append (suc before) xs ys h.1 (
      let same : before + suc (length xs) ≡ suc before + length xs = omega arith in
      subst (λ n. IsNumbered n ys) same k),
)

iterated-listed : (o : Option Value) (es : List Fields) → iterated o ≡ ok es → es ≡ listed o
iterated-listed none es h = cc
iterated-listed (some null) es h = cc
iterated-listed (some (bool true)) es h = cc
iterated-listed (some (bool false)) es h = cc
iterated-listed (some (int n)) es h = ground arith
iterated-listed (some (float t)) es h = ground arith
iterated-listed (some (str s)) es h = cc
iterated-listed (some (arr vs)) es h = cc
iterated-listed (some (obj d)) es h = cc

entries-written :
    (key : String) (stored : Fields) (all : List Fields) (w : World)
    → entries key (Store.put key (written stored all) w) ≡ all
entries-written key stored all w =
    let kept = get-put_self key (written stored all) w in
    let read : entries key (Store.put key (written stored all) w)
        ≡ listed (get "messages" (written stored all)) =
      ground arith in
    read
    ∙ (rw (Value.get-put_self "messages" (arr (of_list (map obj all))) stored) (dicts-of_list all))

module _ (key : String) (run_id : Option String) (recorded_at : String) (w : World) where
  abbrev batch_entries : List Fields → List Fields
  batch_entries batch = new_entries (length (entries key w)) batch run_id recorded_at

  append-entries :
      (batch : List Fields) (added : List ThreadMessage)
      → (append key batch run_id recorded_at w).0 ≡ ok added
      → (to_messages (batch_entries batch) ≡ ok added)
        × (entries key (append key batch run_id recorded_at w).1
            ≡ entries key w ++ batch_entries batch)
  unfolding append
  append-entries batch added h =
      elim (Result-cases (iterated (get "messages" (Store.get_or_empty key w)))) [
        | inr (e, refused) ↦ ground arith
        | inl (existing, is) ↦
            let same : existing ≡ entries key w =
              iterated-listed (get "messages" (Store.get_or_empty key w)) existing is in
            let read =
              entries-written key (Store.get_or_empty key w) (entries key w ++ batch_entries batch)
                w in
            ground arith
      ]

  recorded :
      (b : List Fields) (added : List ThreadMessage)
      → (record_messages key b run_id recorded_at w).0 ≡ ok added
      → (to_messages (new_entries (length (entries key w)) b run_id recorded_at) ≡ ok added)
        × (entries key (record_messages key b run_id recorded_at w).1
            ≡ entries key w ++ new_entries (length (entries key w)) b run_id recorded_at)
  unfolding record_messages to_messages
  recorded [] added h = (h, sym (append-nil (entries key w)))
  recorded (m ∷ ms) added h = elim (Bool-cases (w.busy key)) [
    | inl busy ↦ ground arith
    | inr free ↦ let effect = append-entries (m ∷ ms) added (ground arith) in ground arith
  ]

module _ (key : String) (batch : List Fields) (run_id : Option String) (recorded_at : String)
    (w : World) where
  -- The entries a batch adds to the conversation as it stands.
  abbrev pub added_entries : List Fields
  added_entries = new_entries (length (entries key w)) batch run_id recorded_at

  abbrev pub after : World
  after = (record_messages key batch run_id recorded_at w).1

  numbered :
      (u : World)
      → entries key u ≡ entries key w ++ added_entries
      → IsNumbered 0 (entries key w)
      → IsNumbered 0 (entries key u)
  numbered u e h =
      let start : length (entries key w) ≡ 0 + length (entries key w) = omega arith in
      let new = new_entries-IsNumbered (length (entries key w)) batch run_id recorded_at in
      subst (IsNumbered 0) (sym e) (
        IsNumbered-append 0 (entries key w) added_entries h
          (subst (λ n. IsNumbered n added_entries) start new))

  -- A batch that is recorded stands behind the conversation in its order, and what is returned is how
  -- its entries read. Where the conversation was numbered from one without a gap or a repeat, it
  -- still is: the new positions go on from the last.
  pub record-positions :
      (added : List ThreadMessage)
      → (record_messages key batch run_id recorded_at w).0 ≡ ok added
      → (to_messages added_entries ≡ ok added)
        × (entries key after ≡ entries key w ++ added_entries)
        × (IsNumbered 0 (entries key w) → IsNumbered 0 (entries key after))
  record-positions added h =
      let (read, stands) = recorded key run_id recorded_at w batch added h in
      (read, stands, numbered after stands)
