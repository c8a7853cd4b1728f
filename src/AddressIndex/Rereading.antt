-- ===== src/AddressIndex/Rereading.antt =====
-- What a recovery reads back of what an append has written.
use prism_harness_py.Prelude.{
  ℕ, suc, ◌+◌, ◌/◌, ◌%◌, ◌≤◌, String, Bool, true, false, Option, none, some, List, [], ◌∷◌, ◌++◌,
  map, ◌≡◌, inl, inr, refl, ap, arith, length, get_elem?, if◌then◌else◌, str_eq, eq_refl,
  length-append, Option-cases, Bool-cases,
}
use prism_harness_py.Value.{
  Value, null, bool, float, int, str, arr, obj, Fields, get, to_list, of_list,
}
use prism_harness_py.Result.{ok}
use prism_harness_py.Store.{World, lookup-insert, get-put_self, get-put_ne}
use prism_harness_py.Store
use prism_harness_py.Python.{Python}
use prism_harness_py.Hashes.{is_digest}
use prism_harness_py.AddressIndex.Head.{
  Head, head_of, head_key, page_ids, read_page, digests, head_fields, settled_head,
}
use prism_harness_py.AddressIndex.Append.{
  Journal, journal, page_write, page_fields, after_page, plan, put_all, recover_head, recover_root,
}

get_elem?_last :
    {A : Type 0} (xs : List A) (x : A) → get_elem? (xs ++ (x ∷ [])) (length xs) ≡ some x
get_elem?_last [] x = refl
get_elem?_last (y ∷ xs) x = get_elem?_last xs x

-- Two worlds whose store answers alike.
abbrev pub Alike : World → World → Type 0
Alike v u = (key : String) → Store.get key v ≡ Store.get key u

-- Putting again what was put changes no answer.
pub again-once :
    (key : String) (payload : Fields) (v : World)
    → Alike (Store.put key payload (Store.put key payload v)) (Store.put key payload v)
again-once key payload v at =
    rw
      (
        lookup-insert key at payload (Store.put key payload v).entries,
        lookup-insert key at payload v.entries,
      )
      (twice (str_eq key at) (Store.get at v))
  where
    twice :
        (b : Bool) (o : Option Fields)
        → (if b then some payload else (if b then some payload else o))
          ≡ (if b then some payload else o)
    twice true o = refl
    twice false o = refl

pub put-Alike :
    (key : String) (payload : Fields) (v u : World)
    → Alike v u
    → Alike (Store.put key payload v) (Store.put key payload u)
put-Alike key payload v u h at =
    rw (lookup-insert key at payload v.entries, lookup-insert key at payload u.entries, h at) refl

-- Digests, written out and read back.
abbrev Digests : List String → Type 0
Digests ids = digests (to_list (of_list (map str ids))) ≡ some ids

digests-cases :
    (v : Value) (vs : List Value) (ids : List String)
    → digests (v ∷ vs) ≡ some ids
    → (s : String) × (rest : List String) × (is_digest s ≡ true)
      × (digests vs ≡ some rest)
      × (ids ≡ s ∷ rest)
digests-cases (str s) vs ids h = elim (Option-cases (digests vs)) [
  | inl nothing ↦ ground arith
  | inr (rest, read) ↦ elim (Bool-cases (is_digest s)) [
    | inl valid ↦ (s, rest, valid, read, ground arith)
    | inr other ↦ ground arith
  ]
]
digests-cases null vs ids h = cc
digests-cases (bool b) vs ids h = cc
digests-cases (int n) vs ids h = cc
digests-cases (float t) vs ids h = cc
digests-cases (arr ws) vs ids h = cc
digests-cases (obj d) vs ids h = cc

digests-append :
    (vs : List Value) (ids : List String) (s : String)
    → digests vs ≡ some ids
    → is_digest s ≡ true
    → Digests (ids ++ (s ∷ []))
digests-append [] ids s h d = ground arith
digests-append (v ∷ vs) ids s h d =
    let (t, rest, dt, read, is) = digests-cases v vs ids h in
    ground (arith, digests-append vs rest s read d)

pub head_of-settled :
    (n : ℕ)
    → head_of (some (head_fields (n + 1) (n / 100 + 1))) ≡ ok (settled_head (n + 1) (n / 100 + 1))
unfolding head_of
head_of-settled n = ground arith

-- What a page holds is digests, whatever it held before.
pub read_page-Digests :
    (stored : Option Fields) (ids : List String) (s : String)
    → read_page stored ≡ ok ids
    → is_digest s ≡ true
    → Digests (ids ++ (s ∷ []))
unfolding read_page
read_page-Digests none ids s h d = ground arith
read_page-Digests (some page) ids s h d = held (get "ids" page) refl
  where
    held : (o : Option Value) → get "ids" page ≡ o → Digests (ids ++ (s ∷ []))
    held (some (arr vs)) e =
        let read : digests (to_list vs) ≡ some ids = ground arith in
        digests-append (to_list vs) ids s read d
    held none e = ground arith
    held (some null) e = ground arith
    held (some (bool b)) e = ground arith
    held (some (int n)) e = ground arith
    held (some (float t)) e = ground arith
    held (some (str t)) e = ground arith
    held (some (obj f)) e = ground arith

length_written : (ids : List String) → length (to_list (of_list (map str ids))) ≡ length ids
length_written [] = refl
length_written (x ∷ xs) = ap suc (length_written xs)

pub page_fields-read :
    (ids : List String)
    → Digests ids
    → length ids ≤ 100
    → read_page (some (page_fields ids)) ≡ ok ids
unfolding read_page
page_fields-read ids d h = ground (arith, length_written ids)

pub journal-digest :
    (count : ℕ) (pending : Fields) (j : Journal)
    → journal count pending ≡ ok j
    → is_digest j.hash ≡ true
unfolding journal
journal-digest count pending j h = checks (get "hash" pending) (get "entry" pending) refl refl
  where
    checks :
        (a b : Option Value)
        → get "hash" pending ≡ a
        → get "entry" pending ≡ b
        → is_digest j.hash ≡ true
    checks (some (str s)) (some (obj d)) ea eb = ground arith
    checks (some (str s)) none ea eb = ground arith
    checks (some (str s)) (some null) ea eb = ground arith
    checks (some (str s)) (some (bool b)) ea eb = ground arith
    checks (some (str s)) (some (int b)) ea eb = ground arith
    checks (some (str s)) (some (float b)) ea eb = ground arith
    checks (some (str s)) (some (str b)) ea eb = ground arith
    checks (some (str s)) (some (arr b)) ea eb = ground arith
    checks none b ea eb = ground arith
    checks (some null) b ea eb = ground arith
    checks (some (bool x)) b ea eb = ground arith
    checks (some (int x)) b ea eb = ground arith
    checks (some (float x)) b ea eb = ground arith
    checks (some (arr x)) b ea eb = ground arith
    checks (some (obj x)) b ea eb = ground arith

module _ ⦃py : Python⦄ (root : String) (count : ℕ) (pending : Fields) where
  -- A page that already holds the digest needs no write.
  pub page_write-again :
      (j : Journal) (ids : List String)
      → length ids ≡ count % 100
      → page_write root count j (ids ++ (j.hash ∷ [])) ≡ ok []
  unfolding page_write
  page_write-again j ids h =
      let grown = length-append ids (j.hash ∷ []) in
      let last : get_elem? (ids ++ (j.hash ∷ [])) (count % 100) ≡ some j.hash =
        rw (← h) (get_elem?_last ids j.hash) in
      ground (arith, grown, last, eq_refl j.hash)

  pub plan-ready :
      (j : Journal) (ids : List String) (v : World)
      → journal count pending ≡ ok j
      → page_ids root (count / 100) v ≡ ok ids
      → page_write root count j ids ≡ ok []
      → plan root count pending v ≡ ok (after_page root count j)
  unfolding plan
  plan-ready j ids v a b c = ground arith

  pub recover_root-plan :
      (head : Head) (writes : List (String × Fields)) (v : World)
      → head_of (Store.get (head_key root) v) ≡ ok head
      → head.count ≡ count
      → head.pending ≡ some pending
      → plan root count pending v ≡ ok writes
      → recover_root root v ≡ (ok (settled_head (count + 1) (count / 100 + 1)), put_all writes v)
  unfolding recover_root recover_head
  recover_root-plan head writes v a b c d = ground arith
