-- ===== src/AddressIndex/Paging.antt =====
-- The cache of `page` changes no answer.
use prism_harness_py.Prelude.{
  ℕ, zero, suc, ◌+◌, ◌/◌, String, Option, none, some, List, [], ◌∷◌, ◌≡◌, refl, arith, inl, inr,
}
use prism_harness_py.Value.{Fields}
use prism_harness_py.Result.{Result, ok, Result-cases, ◌>>=◌}
use prism_harness_py.Store.{World}
use prism_harness_py.Python.{Python}
use prism_harness_py.AddressIndex.Head.{page_ids, page_size}
use prism_harness_py.AddressIndex.Reading.{read_entries, cached_ids, entry_in}

module _ ⦃py : Python⦄ (root : String) (w : World) where
  -- The entry at a position, from its page as the store has it.
  abbrev pub entry_at : (position : ℕ) → Result Fields
  entry_at position = page_ids root (position / page_size) w >>= entry_in root w position

  -- The entries of so many positions from one on.
  abbrev pub entries_at : (left position : ℕ) → Result (List Fields)
  entries_at zero position = ok []
  entries_at (suc left) position = do
    entry ← entry_at position
    entries ← entries_at left (position + 1)
    ok (entry ∷ entries)

  -- What the loop holds as its page is that page as the store has it.
  abbrev pub IsFresh : Option (ℕ × List String) → Type 0
  IsFresh none = Unit
  IsFresh (some (number, ids)) = page_ids root number w ≡ ok ids

  cached_ids-IsFresh :
      (cache : Option (ℕ × List String)) (number : ℕ)
      → IsFresh cache
      → cached_ids root w cache number ≡ page_ids root number w
  cached_ids-IsFresh none number fresh = refl
  cached_ids-IsFresh (some (last, ids)) number fresh = ground arith

  -- Reading with the last page kept, the loop of `page` answers as if every position read its page
  -- from the store: the same entries in order, or the error of the first position that has one.
  pub read_entries-eq-entries_at :
      (left position : ℕ) (cache : Option (ℕ × List String))
      → IsFresh cache
      → read_entries root w left position cache ≡ entries_at left position
  unfolding read_entries
  read_entries-eq-entries_at zero position cache fresh = refl
  read_entries-eq-entries_at (suc left) position cache fresh =
      elim (Result-cases (page_ids root (position / page_size) w)) [
        | inr (e, unread) ↦ ground (arith, cached_ids-IsFresh cache (position / page_size) fresh)
        | inl (ids, read) ↦
            let rest =
              read_entries-eq-entries_at left (position + 1) (some (position / page_size, ids))
                read in
            elim (Result-cases (entry_in root w position ids)) [
              | inr (e, missing) ↦
                  ground (arith, cached_ids-IsFresh cache (position / page_size) fresh)
              | inl (entry, found) ↦ elim (Result-cases (entries_at left (position + 1))) [
                | inr (e, stops) ↦
                    ground (arith, cached_ids-IsFresh cache (position / page_size) fresh)
                | inl (entries, goes) ↦
                    ground (arith, cached_ids-IsFresh cache (position / page_size) fresh)
              ]
            ]
      ]
