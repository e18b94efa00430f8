-- ===== src/HashTable/Insert.antt =====
-- `hashtable_insert` as an operation on a finite map.
use asterisk.Base.{
  ℕ, ◌<◌, ◌≡◌, ◌≢◌, ◌∙◌, sym, refl, arith, Bool, true, false, none, some, inl, inr, ◌⊎◌,
  Option-cases, Bool-cases, ◌==◌, if◌then◌else◌, ==→eq,
}
use asterisk.HashTable.{
  DataItem, HashTable, item, is_free, put_item, hash_code, probe, search_internal, hashtable_search,
  hashtable_insert,
}
use asterisk.HashTable.Probe.{probe-some, probe-none-all}
use asterisk.HashTable.Lookup.{
  Holds, IsValid, hash_code-lt, search_internal-some, search_internal-none, hashtable_search-none,
}
use asterisk.HashTable.Write.{put_item-IsValid, search-put_self, search-put_other}

-- The three things that `hashtable_insert` can do.
pub data Inserted (t : HashTable) (key value : ℕ) : Bool × HashTable → Type 0 where
  updated :
      (i : ℕ)
      → Holds t key i
      → Inserted t key value (true, put_item t i (record (item t i) { value = value }))
  added :
      (i : ℕ)
      → i < t.capacity
      → (item t i).used ≡ 0
      → ((j : ℕ) → Holds t key j → ⊥)
      → Inserted t key value (true, put_item t i (record { value = value; key = key; used = 1 }))
  full :
      ((j : ℕ) → Holds t key j → ⊥)
      → ((j : ℕ) → j < t.capacity → (item t j).used ≢ 0)
      → Inserted t key value (false, t)

module _ {t : HashTable} (v : IsValid t) (key value : ℕ) where
  pub hashtable_insert-Inserted : Inserted t key value (hashtable_insert t key value)
  unfolding hashtable_insert
  hashtable_insert-Inserted = elim (Option-cases (search_internal t key)) [
    | inr (i, found) ↦ rw (found, hashtable_insert) (updated i (search_internal-some v key i found))
    | inl absent ↦
        let none_there = λ (j : ℕ) (h : Holds t key j). search_internal-none v key j absent h in
        elim (Option-cases (probe (is_free t) t t.capacity (hash_code t key))) [
          | inr (i, found) ↦
              let (free, lt) =
                probe-some (is_free t) t v.nonempty v.small t.capacity (hash_code t key) i
                  (hash_code-lt v key) found in
              rw (absent, found, hashtable_insert) (added i lt (==→eq _ _ free) none_there)
          | inl no_free ↦
              rw (absent, no_free, hashtable_insert)
                (full none_there (λ j hj u. taken j u (
                  probe-none-all (is_free t) t v.nonempty v.small (hash_code t key) j
                    (hash_code-lt v key) no_free hj)))
        ]
  ]
    where
      taken : (j : ℕ) → (item t j).used ≡ 0 → is_free t j ≡ false → ⊥
      taken j u e = ground arith

-- What `hashtable_insert` returned, seen at any key `k` and any cell `j`.
abbrev pub InsertLaws : HashTable → (key value k j : ℕ) → Bool × HashTable → Type 0
InsertLaws t key value k j (done, t') =
    IsValid t'
    × (((done ≡ true)
          × (hashtable_search t' k ≡ (if k == key then some value else hashtable_search t k)))
        ⊎ ((done ≡ false) × (t' ≡ t) × (hashtable_search t key ≡ none) × ((item t j).used ≢ 0)))

module _ {t : HashTable} (v : IsValid t) (key value k j : ℕ) (hj : j < t.capacity) where
  updated-laws :
      (i : ℕ)
      → Holds t key i
      → InsertLaws t key value k j (true, put_item t i (record (item t i) { value = value }))
  updated-laws i h = (
    put_item-IsValid v i d h.inside alone,
    inl (
      refl,
      elim (Bool-cases (k == key)) [
        | inl same ↦
            let p : k ≡ (item t i).key = ==→eq k key same ∙ sym h.has_key in
            rw same (rw p (search-put_self v i d h.inside alone h.is_used))
        | inr differs ↦ rw differs (
            search-put_other v i d h.inside alone k
              (λ hk. other k differs (sym hk.has_key ∙ h.has_key))
              (λ q. other k differs (sym q.1 ∙ h.has_key)))
      ],
    ),
  )
    where
      d : DataItem
      d = record (item t i) { value = value }

      alone : (j : ℕ) → d.used ≡ 1 → Holds t d.key j → i ≡ j
      alone j u hj =
          v.distinct d.key i j (record { inside = h.inside; is_used = h.is_used; has_key = refl })
            hj

      other : (k : ℕ) → (k == key) ≡ false → k ≡ key → ⊥
      other k e p = ground arith

  added-laws :
      (i : ℕ)
      → i < t.capacity
      → (item t i).used ≡ 0
      → ((j : ℕ) → Holds t key j → ⊥)
      → InsertLaws t key value k j
          (true, put_item t i (record { value = value; key = key; used = 1 }))
  added-laws i hi free no_cell = (
    put_item-IsValid v i d hi alone,
    inl (
      refl,
      elim (Bool-cases (k == key)) [
        | inl same ↦ rw same (rw (==→eq k key same) (search-put_self v i d hi alone refl))
        | inr differs ↦ rw differs (
            search-put_other v i d hi alone k (λ hk. two_uses hk.is_used)
              (λ q. other k differs (sym q.1)))
      ],
    ),
  )
    where
      d : DataItem
      d = record { value = value; key = key; used = 1 }

      alone : (j : ℕ) → d.used ≡ 1 → Holds t d.key j → i ≡ j
      alone j u hj = absurd (no_cell j hj)

      two_uses : (item t i).used ≡ 1 → ⊥
      two_uses u = omega arith

      other : (k : ℕ) → (k == key) ≡ false → k ≡ key → ⊥
      other k e p = ground arith

  laws_of : {out : Bool × HashTable} → Inserted t key value out → InsertLaws t key value k j out
  laws_of (updated i h) = updated-laws i h
  laws_of (added i hi free no_cell) = added-laws i hi free no_cell
  laws_of (full no_cell taken) =
      (v, inr (refl, refl, hashtable_search-none v key no_cell, taken j hj))

  -- `hashtable_insert` keeps a valid table valid. Either it returns TRUE, the key is bound to the
  -- value and any other key is bound as before; or it returns FALSE, has changed nothing, the key
  -- is not bound and any given cell `j` of the table is not free.
  pub hashtable_insert-InsertLaws : InsertLaws t key value k j (hashtable_insert t key value)
  hashtable_insert-InsertLaws = laws_of (hashtable_insert-Inserted v key value)
