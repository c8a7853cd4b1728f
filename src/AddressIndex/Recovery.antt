-- ===== src/AddressIndex/Recovery.antt =====
-- The recovery of an append that was cut off.
use prism_harness_py.Prelude.{
  ℕ, zero, suc, ◌+◌, ◌/◌, ◌%◌, String, none, some, List, [], ◌∷◌, ◌++◌, ◌≡◌, ◌⊎◌, inl, inr, refl,
  sym, ap, ◌∙◌, arith, length, length-append, take,
}
use prism_harness_py.Value.{Fields}
use prism_harness_py.Result.{ok, Result-cases}
use prism_harness_py.Store.{World, get-put_self, get-put_ne}
use prism_harness_py.Store
use prism_harness_py.Python.{Python}
use prism_harness_py.AddressIndex.Keys.{head-ne-entry, head-ne-page, page-ne-entry}
use prism_harness_py.AddressIndex.Head.{
  Head, head_of, head_key, entry_key, page_key, page_ids, read_page, head_fields, settled_head,
}
use prism_harness_py.AddressIndex.Append.{
  Journal, journal, page_write, page_fields, after_page, plan, put_all, recover_head, recover_root,
}
use prism_harness_py.AddressIndex.Rereading.{
  Alike, again-once, put-Alike, head_of-settled, read_page-Digests, page_fields-read,
  journal-digest, page_write-again, plan-ready, recover_root-plan,
}

module _ ⦃py : Python⦄ (root : String) (head : Head) (pending : Fields) (w : World) where
  -- What a recovery answers with.
  abbrev answer : Head
  answer = settled_head (head.count + 1) (head.count / 100 + 1)

  -- A recovery that finishes, in a world that answers like `u`.
  abbrev pub Recovers : World → World → Type 0
  Recovers v u = ((recover_root root v).0 ≡ ok answer) × Alike (recover_root root v).1 u

  -- The cases of a plan: the page is written, or it holds the digest already.
  record Planned (writes : List (String × Fields)) : Type 0 where
    j : Journal
    accepted : journal head.count pending ≡ ok j
    ids : List String
    read : page_ids root (head.count / 100) w ≡ ok ids
    pages : List (String × Fields)
    written : page_write root head.count j ids ≡ ok pages
    all : writes ≡ pages ++ after_page root head.count j

  planned :
      (writes : List (String × Fields))
      → plan root head.count pending w ≡ ok writes
      → Planned writes
  unfolding plan
  planned writes h = elim (Result-cases (journal head.count pending)) [
    | inr (e, refused) ↦ ground arith
    | inl (j, accepted) ↦ elim (Result-cases (page_ids root (head.count / 100) w)) [
      | inr (e, refused) ↦ ground arith
      | inl (ids, read) ↦ elim (Result-cases (page_write root head.count j ids)) [
        | inr (e, refused) ↦ ground arith
        | inl (pages, written) ↦ record {
          j = j;
          accepted = accepted;
          ids = ids;
          read = read;
          pages = pages;
          written = written;
          all = ground arith;
        }
      ]
    ]
  ]

  -- The page write, told apart.
  page_write-cases :
      (j : Journal) (ids : List String) (pages : List (String × Fields))
      → page_write root head.count j ids ≡ ok pages
      → ((pages ≡ (page_key root (head.count / 100), page_fields (ids ++ (j.hash ∷ []))) ∷ [])
          × (length ids ≡ head.count % 100))
        ⊎ (pages ≡ [])
  unfolding page_write
  page_write-cases j ids pages h = ground arith

  -- The head is journaled in the world, and this is what its page reads as.
  record Ready (j : Journal) (v : World) : Type 0 where
    headed : head_of (Store.get (head_key root) v) ≡ ok head
    ids : List String
    read : page_ids root (head.count / 100) v ≡ ok ids
    listed : page_write root head.count j ids ≡ ok []

  module _ (held : head.pending ≡ some pending) (j : Journal)
      (accepted : journal head.count pending ≡ ok j) where
    abbrev entry_put : World → World
    entry_put v = Store.put (entry_key root j.hash) j.entry v

    -- From a world whose page is written, with the entry there or not, and from the committed one.
    from_Ready :
        (v : World)
        → Ready j v
        → recover_root root v ≡ (ok answer, put_all (after_page root head.count j) v)
    from_Ready v r =
        recover_root-plan root head.count pending head (after_page root head.count j) v r.headed
          refl held (plan-ready root head.count pending j r.ids v accepted r.read r.listed)

    -- A settled head needs no recovery.
    rests :
        (v : World) (h : Head)
        → head_of (Store.get (head_key root) v) ≡ ok h
        → h.pending ≡ none
        → recover_root root v ≡ (ok h, v)
    unfolding recover_root recover_head
    rests v h a b = ground arith

    from_settled :
        (v : World)
        → recover_root root (put_all (after_page root head.count j) v)
          ≡ (ok answer, put_all (after_page root head.count j) v)
    from_settled v =
        let u = entry_put v in
        let settled = head_fields (head.count + 1) (head.count / 100 + 1) in
        rests (Store.put (head_key root) settled u) answer
          (ap head_of (get-put_self (head_key root) settled u) ∙ head_of-settled head.count) refl

    Ready-entry : (v : World) → Ready j v → Ready j (entry_put v)
    Ready-entry v r = record {
      headed =
          ap head_of (
            get-put_ne (entry_key root j.hash) (head_key root) j.entry v
              (λ e. head-ne-entry root j.hash (sym e)))
          ∙ r.headed;
      ids = r.ids;
      read =
          ap read_page (
            get-put_ne (entry_key root j.hash) (page_key root (head.count / 100)) j.entry v
              (λ e. page-ne-entry root (head.count / 100) j.hash (sym e)))
          ∙ r.read;
      listed = r.listed;
    }

    -- Cut off anywhere behind the page's write, the recovery finishes.
    finishes :
        (v : World)
        → Ready j v
        → (k : ℕ)
        → Recovers
            (put_all (take k (after_page root head.count j)) v)
            (put_all (after_page root head.count j) v)
    finishes v r zero = rw (from_Ready v r) (refl, λ key. refl)
    finishes v r (suc zero) = rw (from_Ready (entry_put v) (Ready-entry v r)) (
      refl,
      put-Alike (head_key root) _ (entry_put (entry_put v)) (entry_put v)
          (again-once (entry_key root j.hash) j.entry v),
    )
    finishes v r (suc (suc zero)) = rw (from_settled v) (refl, λ key. refl)
    finishes v r (suc (suc (suc k))) = rw (from_settled v) (refl, λ key. refl)

    Ready-page :
        (ids : List String)
        → head_of (Store.get (head_key root) w) ≡ ok head
        → page_ids root (head.count / 100) w ≡ ok ids
        → length ids ≡ head.count % 100
        → Ready j
            (Store.put (page_key root (head.count / 100)) (page_fields (ids ++ (j.hash ∷ []))) w)
    Ready-page ids headed read short = record {
      headed =
          ap head_of (
            get-put_ne (page_key root (head.count / 100)) (head_key root) _ w
              (λ e. head-ne-page root (head.count / 100) (sym e)))
          ∙ headed;
      ids = ids ++ (j.hash ∷ []);
      read =
          ap read_page (get-put_self (page_key root (head.count / 100)) _ w)
          ∙ page_fields-read (ids ++ (j.hash ∷ []))
              (read_page-Digests (Store.get (page_key root (head.count / 100)) w) ids j.hash read
                (journal-digest head.count pending j accepted))
              (omega (arith, length-append ids (j.hash ∷ []), short));
      listed = page_write-again root head.count pending j ids short;
    }

    -- The same with the page's write before it.
    cut_off :
        (put : String × Fields)
        → Ready j (Store.put put.0 put.1 w)
        → head_of (Store.get (head_key root) w) ≡ ok head
        → plan root head.count pending w ≡ ok (put ∷ after_page root head.count j)
        → (k : ℕ)
        → Recovers
            (put_all (take k (put ∷ after_page root head.count j)) w)
            (put_all (put ∷ after_page root head.count j) w)
    cut_off put ready headed h zero =
        rw
          (recover_root-plan root head.count pending head (put ∷ after_page root head.count j) w
            headed refl held h)
          (refl, λ key. refl)
    cut_off put ready headed h (suc k) = finishes (Store.put put.0 put.1 w) ready k

  -- An append whose head is journaled is recovered from wherever it was cut off: after any number of
  -- its puts (the page's, the entry's, the head's commit), the recovery returns the head with one
  -- address more and nothing pending, and every key of the store then reads as if it had never been
  -- cut off.
  pub recovery_completes :
      head_of (Store.get (head_key root) w) ≡ ok head
      → head.pending ≡ some pending
      → (writes : List (String × Fields)) → plan root head.count pending w ≡ ok writes
      → (k : ℕ) → Recovers (put_all (take k writes) w) (put_all writes w)
  recovery_completes headed held writes h k =
      let p = planned writes h in
      elim (page_write-cases p.j p.ids p.pages p.written) [
        | inl (page, short) ↦
            let ready = Ready-page held p.j p.accepted p.ids headed p.read short in
            rw (p.all, page)
              (cut_off held p.j p.accepted _ ready headed (h ∙ ap ok (rw (p.all, page) refl)) k)
        | inr none_left ↦
            rw (p.all, none_left)
              (finishes held p.j p.accepted w
                (record {
                  headed = headed;
                  ids = p.ids;
                  read = p.read;
                  listed = p.written ∙ ap ok none_left;
                })
                k)
      ]
