-- ===== src/HashTable/Remove.antt =====
-- `hashtable_remove` as an operation on a finite map.
use asterisk.Base.{
  ℕ, ◌≡◌, ◌∙◌, sym, refl, ap, arith, Bool, true, false, none, some, inl, inr, ◌↔◌, Option-cases,
  Bool-cases, ◌==◌, if◌then◌else◌, ==→eq,
}
use asterisk.HashTable.{
  DataItem, HashTable, item, put_item, search_internal, hashtable_search, hashtable_remove,
}
use asterisk.HashTable.Lookup.{
  Holds, IsValid, search_internal-some, search-absent, search-found, hashtable_search-none,
}
use asterisk.HashTable.Write.{put_item-IsValid, search-put_other, unused-put}

-- What `hashtable_remove` returned, seen at any key `k`.
abbrev pub RemoveLaws : HashTable → (key k : ℕ) → Bool × HashTable → Type 0
RemoveLaws t key k (done, t') =
    IsValid t'
    × ((done ≡ false) ↔ (hashtable_search t key ≡ none))
    × (hashtable_search t' k ≡ (if k == key then none else hashtable_search t k))

module _ {t : HashTable} (v : IsValid t) (key k : ℕ) where
  removed-laws :
      (i : ℕ)
      → search_internal t key ≡ some i
      → RemoveLaws t key k (true, put_item t i (record (item t i) { used = 0 }))
  removed-laws i found = (
    put_item-IsValid v i d h.inside alone,
    (λ e. cc e, λ e. bound e (search-found v key i found)),
    elim (Bool-cases (k == key)) [
      | inl same ↦ rw same (
          rw (==→eq k key same) (
            hashtable_search-none (put_item-IsValid v i d h.inside alone) key
              (unused-put v i d h.inside alone key h zero_one)))
      | inr differs ↦ rw differs (
          search-put_other v i d h.inside alone k
            (λ hk. other k differs (sym hk.has_key ∙ h.has_key)) (λ q. zero_one q.0))
    ],
  )
    where
      d : DataItem
      d = record (item t i) { used = 0 }

      h : Holds t key i
      h = search_internal-some v key i found

      zero_one : d.used ≡ 1 → ⊥
      zero_one u = omega arith

      alone : (j : ℕ) → d.used ≡ 1 → Holds t d.key j → i ≡ j
      alone j u hj = absurd (zero_one u)

      bound :
          hashtable_search t key ≡ none
          → hashtable_search t key ≡ some (item t i).value
          → true ≡ false
      bound e f = cc

      other : (k : ℕ) → (k == key) ≡ false → k ≡ key → ⊥
      other k e p = ground arith

  -- In a valid table, `hashtable_remove` keeps it valid, returns FALSE exactly if the key was not
  -- bound, and afterwards the key is not bound and any other key is bound as before.
  pub hashtable_remove-RemoveLaws : RemoveLaws t key k (hashtable_remove t key)
  unfolding hashtable_remove
  hashtable_remove-RemoveLaws = elim (Option-cases (search_internal t key)) [
    | inr (i, found) ↦ rw (found, hashtable_remove) (removed-laws i found)
    | inl absent ↦
        rw (absent, hashtable_remove)
          (v, (λ e. search-absent v key absent, λ e. refl), unbound (search-absent v key absent))
  ]
    where
      unbound :
          hashtable_search t key ≡ none
          → hashtable_search t k ≡ (if k == key then none else hashtable_search t k)
      unbound e = elim (Bool-cases (k == key)) [
        | inl same ↦ rw same (ap (hashtable_search t) (==→eq k key same) ∙ e)
        | inr differs ↦ rw differs refl
      ]
