-- ===== src/AddressIndex/Journaling.antt =====
-- What `append` leaves in the store from its first put on.
use prism_harness_py.Prelude.Int.{pos}
use prism_harness_py.AddressIndex.Rereading.{Alike}
use prism_harness_py.AddressIndex.Recovery.{recovery_completes}
use prism_harness_py.AddressIndex.Append.{
  is_over, identity, entry_fields, plan, recover_head, recover_root, append, put_all,
}
use prism_harness_py.Address.{index_key, SessionAddress}
use prism_harness_py.Prelude.{
  ◌/◌, ◌+◌, suc, take, ℕ, String, true, Option, none, some, List, [], ◌∷◌, ◌≡◌, refl, sym, ap, ◌∙◌,
  arith, subst, ◌&&◌, Option-cases, Bool-cases, inl, inr,
}
use prism_harness_py.Value.{end, field, Value, int, str, obj, Fields, get, put, get-put, is_number}
use prism_harness_py.Result.{Result-cases, Result, ok}
use prism_harness_py.Store.{World, get-put_self}
use prism_harness_py.Store
use prism_harness_py.Python.{Python}
use prism_harness_py.Hashes.{Hashes}
use prism_harness_py.AddressIndex.Head.{
  Head, head_of, head_key, settled_head, checked_head, count_of, pending_of, pages_for,
}

abbrev prepared_head : (head : Head) → Fields → Head
prepared_head head pending = record {
  raw = put "pending" (obj pending) head.raw;
  count = head.count;
  pending = some pending;
}

record Accepted (raw : Fields) (head : Head) : Type 0 where
  same_raw : head.raw ≡ raw
  counted : count_of (get "count" raw) ≡ some head.count
  version : is_number (get "version" raw) 1 ≡ true
  pages : is_number (get "pages" raw) (pages_for head.count) ≡ true

checked_head-Accepted :
    (raw : Fields) (c : Option ℕ) (p : Option (Option Fields)) (head : Head)
    → count_of (get "count" raw) ≡ c
    → checked_head raw c p ≡ some head
    → Accepted raw head
checked_head-Accepted raw none p head e h = cc
checked_head-Accepted raw (some n) none head e h = cc
checked_head-Accepted raw (some n) (some p) head e h =
    elim (Bool-cases
      (is_number (get "version" raw) 1 && is_number (get "pages" raw) (pages_for n))) [
        | inr bad ↦ let none_left : none ≡ some head = rw bad at h in cc none_left
        | inl good ↦
            let same : some (record { raw = raw; count = n; pending = p }) ≡ some head =
              rw good at h in
            let is : record { raw = raw; count = n; pending = p } ≡ head = cc same in
            record {
              same_raw = sym (ap (λ x. x.raw) is);
              counted = e ∙ ap (λ x. some x.count) is;
              version = ground arith;
              pages = rw (← ap (λ x. x.count) is) (ground arith);
            }
      ]

-- A head that was read is a head again with a journal in it.
prepared-head_of :
    (stored : Option Fields) (head : Head) (pending : Fields)
    → head_of stored ≡ ok head
    → head_of (some (put "pending" (obj pending) head.raw)) ≡ ok (prepared_head head pending)
unfolding head_of
prepared-head_of none head pending h =
    let is : settled_head 0 0 ≡ head = cc h in
    subst (λ x. head_of (some (put "pending" (obj pending) x.raw)) ≡ ok (prepared_head x pending))
      is refl
prepared-head_of (some raw) head pending h =
    elim (Option-cases
      (checked_head raw (count_of (get "count" raw)) (pending_of (get "pending" raw)))) [
        | inl bad ↦ ground arith
        | inr (found, good) ↦
            let is : found ≡ head = ground arith in
            let a = checked_head-Accepted raw _ _ head refl (good ∙ ap some is) in
            let count = get-put "pending" "count" (obj pending) head.raw in
            let version = get-put "pending" "version" (obj pending) head.raw in
            let pages = get-put "pending" "pages" (obj pending) head.raw in
            let journal = get-put "pending" "pending" (obj pending) head.raw in
            ground
              (arith, count, version, pages, journal, a.same_raw, a.counted, a.version, a.pages)
      ]

module _ ⦃py : Python⦄ ⦃hashes : Hashes⦄ (limit : Option ℕ) (root : String) (head : Head)
    (a : SessionAddress) (added : Value) (w : World) where
  abbrev pub appended : Result (Unit {0}) × World
  appended = append limit root head a added w

  -- The puts of an append that goes through, in order: the journal in the head, then the rest.
  pub record Puts : Type 0 where
    pub journaled : Fields
    pub rest : List (String × Fields)
    pub all : appended.1 ≡ put_all ((head_key root, journaled) ∷ rest) w
    pub recovered :
        (k : ℕ)
        → ((recover_root root (put_all (take (suc k) ((head_key root, journaled) ∷ rest)) w)).0
            ≡ ok (settled_head (head.count + 1) (head.count / 100 + 1)))
          × Alike
              (recover_root root (put_all (take (suc k) ((head_key root, journaled) ∷ rest)) w)).1
              appended.1

  append-plan :
      appended.0 ≡ ok tt
      → (pending : Fields) × (writes : List (String × Fields)) × (plan root head.count pending
            (Store.put (head_key root) (put "pending" (obj pending) head.raw) w)
          ≡ ok writes)
        × (appended.1
            ≡ put_all writes (Store.put (head_key root) (put "pending" (obj pending) head.raw) w))
  unfolding append recover_head
  append-plan h =
      let entry = entry_fields (identity a) (added ∷ []) head.count in
      let pending =
        field "hash" (str (index_key a))
          (field "position" (int (pos head.count)) (field "entry" (obj entry) end)) in
      let journaled = Store.put (head_key root) (put "pending" (obj pending) head.raw) w in
      elim (Bool-cases (is_over limit head.count)) [
        | inl full ↦ ground arith
        | inr room ↦ elim (Result-cases (plan root head.count pending journaled)) [
          | inr (e, refused) ↦ ground arith
          | inl (writes, planned) ↦ (pending, writes, planned, ground arith)
        ]
      ]

  -- An append of an address that goes through is a list of puts, the first of which journals it in the
  -- head. Cut off behind any of them, a recovery returns the head with one address more, and every
  -- key of the store then reads as behind the whole append.
  pub append-Puts : head_of (Store.get (head_key root) w) ≡ ok head → appended.0 ≡ ok tt → Puts
  append-Puts headed h =
      let (pending, writes, planned, all) = append-plan h in
      let raw = put "pending" (obj pending) head.raw in
      let journaled = Store.put (head_key root) raw w in
      let held =
        ap head_of (get-put_self (head_key root) raw w)
        ∙ prepared-head_of (Store.get (head_key root) w) head pending headed in
      record {
        journaled = raw;
        rest = writes;
        all = all;
        recovered = λ k. rw all (
            recovery_completes root (prepared_head head pending) pending journaled held refl writes
              planned k);
      }
