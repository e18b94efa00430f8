-- ===== src/HashTable/Lookup.antt =====
-- What a table holds, and that the search finds exactly that.
use asterisk.Base.{
  ℕ, ◌^◌, ◌<◌, ◌≡◌, ◌∙◌, ap, arith, true, none, some, inl, inr, Option-cases, length,
}
use asterisk.HashTable.{HashTable, item, matches, hash_code, search_internal, hashtable_search}
use asterisk.HashTable.Probe.{probe-some, probe-none-all}
use native.Mathlib.Nat.{mod-lt}

-- The cell `i` is in use for `key`.
pub record Holds (t : HashTable) (key i : ℕ) : Type 0 where
  pub inside : i < t.capacity
  pub is_used : (item t i).used ≡ 1
  pub has_key : (item t i).key ≡ key

-- No two cells in use share a key.
pub record IsValid (t : HashTable) : Type 0 where
  pub storage : length t.items ≡ t.capacity
  pub nonempty : 0 < t.capacity
  pub small : t.capacity < 2 ^ 31
  pub distinct : (key i j : ℕ) → Holds t key i → Holds t key j → i ≡ j

pub matches_sound :
    (t : HashTable) (key i : ℕ) → i < t.capacity → matches t key i ≡ true → Holds t key i
matches_sound t key i h m = ground arith

pub matches_complete : (t : HashTable) (key i : ℕ) → Holds t key i → matches t key i ≡ true
matches_complete t key i h = ground arith

module _ {t : HashTable} (v : IsValid t) (key : ℕ) where
  pub hash_code-lt : hash_code t key < t.capacity
  unfolding hash_code
  hash_code-lt = mod-lt key v.nonempty

  pub search_internal-some : (i : ℕ) → search_internal t key ≡ some i → Holds t key i
  unfolding search_internal
  search_internal-some i e =
      let (m, lt) =
        probe-some (matches t key) t v.nonempty v.small t.capacity (hash_code t key) i hash_code-lt
          e in
      matches_sound t key i lt m

  pub search_internal-none : (i : ℕ) → search_internal t key ≡ none → Holds t key i → ⊥
  unfolding search_internal
  search_internal-none i e h =
      let m =
        probe-none-all (matches t key) t v.nonempty v.small (hash_code t key) i hash_code-lt e
          h.inside in
      let m' = matches_complete t key i h in cc

  -- The cell of a key that the table holds is the cell found.
  pub search_internal-Holds : (i : ℕ) → Holds t key i → search_internal t key ≡ some i
  search_internal-Holds i h = elim (Option-cases (search_internal t key)) [
    | inl absent ↦ absurd (search_internal-none i absent h)
    | inr (j, found) ↦ found ∙ ap some (v.distinct key j i (search_internal-some j found) h)
  ]

  pub search-found :
      (i : ℕ) → search_internal t key ≡ some i → hashtable_search t key ≡ some (item t i).value
  unfolding hashtable_search
  search-found i e = rw (e, hashtable_search)

  pub search-absent : search_internal t key ≡ none → hashtable_search t key ≡ none
  unfolding hashtable_search
  search-absent e = rw (e, hashtable_search)

  -- `hashtable_search` answers with the value of the cell in use for the key, if there is one.
  pub hashtable_search-some :
      (i : ℕ) → Holds t key i → hashtable_search t key ≡ some (item t i).value
  hashtable_search-some i h = search-found i (search_internal-Holds i h)

  pub hashtable_search-none : ((i : ℕ) → Holds t key i → ⊥) → hashtable_search t key ≡ none
  hashtable_search-none no_cell = elim (Option-cases (search_internal t key)) [
    | inl absent ↦ search-absent absent
    | inr (j, found) ↦ absurd (no_cell j (search_internal-some j found))
  ]
