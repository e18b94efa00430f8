-- ===== src/HashTable/Fresh.antt =====
-- What a table answers right after `hashtable_create`, whose cells nothing has set.
use asterisk.Base.{
  ℕ, ◌^◌, ◌<◌, ◌≡◌, ◌≢◌, ◌↔◌, refl, List, none, some, inl, inr, Option-cases, get_or,
}
use asterisk.HashTable.{
  DataItem, HashTable, item, blank, matches, hash_code, search_internal, hashtable_create,
  hashtable_search,
}
use asterisk.HashTable.Probe.{probe-some, probe-none-all}
use asterisk.HashTable.Lookup.{Holds, matches_sound, matches_complete}
use native.Mathlib.Nat.{mod-lt}

module _ (t : HashTable) (pos : 0 < t.capacity) (small : t.capacity < 2 ^ 31) (key : ℕ) where
  code-lt : hash_code t key < t.capacity
  unfolding hash_code
  code-lt = mod-lt key pos

  search-Holds : (x : ℕ) → hashtable_search t key ≡ some x → (i : ℕ) × Holds t key i
  unfolding hashtable_search search_internal
  search-Holds x e = elim (Option-cases (search_internal t key)) [
    | inl absent ↦ absurd (no_answer absent)
    | inr (i, found) ↦
        let (m, lt) =
          probe-some (matches t key) t pos small t.capacity (hash_code t key) i code-lt found in
        (i, matches_sound t key i lt m)
  ]
    where
      no_answer : search_internal t key ≡ none → ⊥
      no_answer a = let f : hashtable_search t key ≡ none = rw (a, hashtable_search) in cc

  Holds-ne-none : (i : ℕ) → Holds t key i → hashtable_search t key ≢ none
  unfolding hashtable_search search_internal
  Holds-ne-none i h e = elim (Option-cases (search_internal t key)) [
    | inl absent ↦
        let m =
          probe-none-all (matches t key) t pos small (hash_code t key) i code-lt absent h.inside in
        let m' = matches_complete t key i h in cc
    | inr (j, found) ↦
        let f : hashtable_search t key ≡ some (item t j).value = rw (found, hashtable_search) in cc
  ]

-- A new table binds no key exactly if no cell of the memory that `kmalloc` returned reads as used.
pub hashtable_create-none :
    (capacity : ℕ) (memory : List DataItem)
    → 0 < capacity
    → capacity < 2 ^ 31
    → ((key : ℕ) → hashtable_search (hashtable_create capacity memory) key ≡ none)
      ↔ ((i : ℕ) → i < capacity → (get_or memory i blank).used ≢ 1)
unfolding hashtable_create
hashtable_create-none capacity memory pos small = (
  λ silent i lt u.
      Holds-ne-none t pos small (get_or memory i blank).key i
        (record { inside = lt; is_used = u; has_key = refl }) (silent (get_or memory i blank).key),
  λ unused key. elim (Option-cases (hashtable_search t key)) [
    | inl e ↦ e
    | inr (x, e) ↦
        let (i, h) = search-Holds t pos small key x e in absurd (unused i h.inside h.is_used)
  ],
)
  where
    t : HashTable
    t = record { items = memory; capacity = capacity }
