-- ===== src/HashTable/Write.antt =====
-- What one write to an array of items does to the answers of `hashtable_search`.
use asterisk.Base.{
  ℕ, ◌<◌, ◌≡◌, ◌≢◌, ◌∙◌, sym, ap, subst, arith, some, inl, inr, Option-cases, length, length-set,
  get_or-set_self, get_or-set_ne,
}
use asterisk.HashTable.{
  DataItem, HashTable, item, blank, put_item, search_internal, hashtable_search,
}
use asterisk.HashTable.Lookup.{
  Holds, IsValid, search_internal-some, search_internal-none, hashtable_search-some,
  hashtable_search-none,
}
use native.Mathlib.Decide.{ℕ_discrete}

pub item-put_self :
    (t : HashTable) (i : ℕ) (d : DataItem) → i < length t.items → item (put_item t i d) i ≡ d
item-put_self t i d h = get_or-set_self t.items i d blank h

pub item-put_ne :
    (t : HashTable) (i j : ℕ) (d : DataItem) → i ≢ j → item (put_item t i d) j ≡ item t j
item-put_ne t i j d ne = get_or-set_ne t.items i j d blank ne

-- Another cell is in use for a key after a write to the cell `i` exactly if it was before.
module _ (t : HashTable) (i : ℕ) (d : DataItem) (key j : ℕ) (ne : i ≢ j) where
  Holds-put : Holds t key j → Holds (put_item t i d) key j
  Holds-put h =
      let e = item-put_ne t i j d ne in
      record {
        inside = h.inside;
        is_used = ap (λ (x : DataItem). x.used) e ∙ h.is_used;
        has_key = ap (λ (x : DataItem). x.key) e ∙ h.has_key;
      }

  Holds-unput : Holds (put_item t i d) key j → Holds t key j
  Holds-unput h =
      let e = item-put_ne t i j d ne in
      record {
        inside = h.inside;
        is_used = sym (ap (λ (x : DataItem). x.used) e) ∙ h.is_used;
        has_key = sym (ap (λ (x : DataItem). x.key) e) ∙ h.has_key;
      }

-- A write of an item to a cell `i`, where no other cell is in use for the item's key.
module _ {t : HashTable} (v : IsValid t) (i : ℕ) (d : DataItem) (hi : i < t.capacity)
    (alone : (j : ℕ) → d.used ≡ 1 → Holds t d.key j → i ≡ j) where
  at_cell : item (put_item t i d) i ≡ d
  at_cell = item-put_self t i d (omega (arith, v.storage))

  key_of : (key : ℕ) → Holds (put_item t i d) key i → (d.used ≡ 1) × (d.key ≡ key)
  key_of key h = (
    sym (ap (λ (x : DataItem). x.used) at_cell) ∙ h.is_used,
    sym (ap (λ (x : DataItem). x.key) at_cell) ∙ h.has_key,
  )

  other : (key j : ℕ) → i ≢ j → Holds (put_item t i d) key i → Holds (put_item t i d) key j → i ≡ j
  other key j ne hi' hj =
      let (u, k) = key_of key hi' in alone j u (rw k (Holds-unput t i d key j ne hj))

  pub put_item-IsValid : IsValid (put_item t i d)
  put_item-IsValid = record {
    storage = length-set t.items i d ∙ v.storage;
    nonempty = v.nonempty;
    small = v.small;
    distinct = λ key a b ha hb. one_cell key a b ha hb;
  }
    where
      one_cell : (key a b : ℕ) → Holds (put_item t i d) key a → Holds (put_item t i d) key b → a ≡ b
      one_cell key a b ha hb = elim (ℕ_discrete i a) [
        | yes p ↦ elim (ℕ_discrete i b) [
          | yes q ↦ sym p ∙ q
          | no q ↦ sym p ∙ other key b q (subst (Holds (put_item t i d) key) (sym p) ha) hb
        ]
        | no p ↦ elim (ℕ_discrete i b) [
          | yes q ↦ sym (other key a p (subst (Holds (put_item t i d) key) (sym q) hb) ha) ∙ q
          | no q ↦ v.distinct key a b (Holds-unput t i d key a p ha) (Holds-unput t i d key b q hb)
        ]
      ]

  -- A key that only the cell `i` was in use for is gone, if the item is not in use.
  pub unused-put :
      (key : ℕ) → Holds t key i → (d.used ≡ 1 → ⊥) → (j : ℕ) → Holds (put_item t i d) key j → ⊥
  unused-put key h off j hj = elim (ℕ_discrete i j) [
    | yes p ↦ off (key_of key (subst (Holds (put_item t i d) key) (sym p) hj)).0
    | no p ↦ p (v.distinct key i j h (Holds-unput t i d key j p hj))
  ]

  -- The item is found by its key, if it is in use.
  pub search-put_self : d.used ≡ 1 → hashtable_search (put_item t i d) d.key ≡ some d.value
  search-put_self u =
      hashtable_search-some put_item-IsValid d.key i (record {
        inside = hi;
        is_used = ap (λ (x : DataItem). x.used) at_cell ∙ u;
        has_key = ap (λ (x : DataItem). x.key) at_cell;
      })
      ∙ ap (λ (x : DataItem). some x.value) at_cell

  -- Keys of which the cell `i` is neither before nor after the write are found as before.
  pub search-put_other :
      (key : ℕ)
      → (Holds t key i → ⊥)
      → ((d.used ≡ 1) × (d.key ≡ key) → ⊥)
      → hashtable_search (put_item t i d) key ≡ hashtable_search t key
  search-put_other key before after = elim (Option-cases (search_internal t key)) [
    | inl absent ↦
        hashtable_search-none put_item-IsValid key (λ j h. elim (ℕ_discrete i j) [
          | yes p ↦ after (key_of key (subst (Holds (put_item t i d) key) (sym p) h))
          | no p ↦ search_internal-none v key j absent (Holds-unput t i d key j p h)
        ])
        ∙ sym (hashtable_search-none v key (λ j h. search_internal-none v key j absent h))
    | inr (j, found) ↦
        let h = search_internal-some v key j found in
        let ne : i ≢ j = λ p. before (subst (Holds t key) (sym p) h) in
        hashtable_search-some put_item-IsValid key j (Holds-put t i d key j ne h)
        ∙ ap (λ (x : DataItem). some x.value) (item-put_ne t i j d ne)
        ∙ sym (hashtable_search-some v key j h)
  ]
