-- ===== src/HashTable/Examples.antt =====
-- The theorems at a table with a collision, and runs of the code.
use asterisk.Base.{
  ℕ, zero, suc, ◌∙◌, sym, ◌≡◌, ◌<◌, refl, arith, true, [], ◌∷◌, none, some, ◌↔◌, ◌≢◌, get_or, List,
}
use asterisk.HashTable.{
  DataItem, HashTable, blank, hash_code, probe, search_internal, hashtable_create, hashtable_search,
  hashtable_insert, hashtable_remove,
}
use asterisk.HashTable.Lookup.{Holds, IsValid}
use asterisk.HashTable.Insert.{InsertLaws, hashtable_insert-InsertLaws}
use asterisk.HashTable.Remove.{RemoveLaws, hashtable_remove-RemoveLaws}
use asterisk.HashTable.Fresh.{hashtable_create-none}

abbrev cell : ℕ → ℕ → ℕ → DataItem
cell k x u = record { value = x; key = k; used = u }

-- the keys 5 and 8 share a home cell, and 8 stands in the next one
abbrev table : HashTable
table = record { items = blank ∷ blank ∷ cell 5 50 1 ∷ []; capacity = 3 }

abbrev collided : HashTable
collided = record { items = cell 8 80 1 ∷ blank ∷ cell 5 50 1 ∷ []; capacity = 3 }

insert_after_collision : hashtable_insert table 8 80 ≡ (true, collided)
unfolding hashtable_insert search_internal probe hash_code
insert_after_collision = refl

-- the walk passes over the cell that a removal has freed
search_past_removed : hashtable_search (hashtable_remove collided 5).1 8 ≡ some 80
unfolding hashtable_search hashtable_remove search_internal probe hash_code
search_past_removed = refl

table-distinct : (key i j : ℕ) → Holds table key i → Holds table key j → i ≡ j
table-distinct key i j a b = third i a ∙ sym (third j b)
  where
    third : (i : ℕ) → Holds table key i → i ≡ 2
    third zero h = absurd (omega (arith, h.is_used))
    third (suc zero) h = absurd (omega (arith, h.is_used))
    third (suc (suc zero)) h = refl
    third (suc (suc (suc i))) h = absurd (omega (arith, h.inside))

table-IsValid : IsValid table
table-IsValid = record {
  storage = refl;
  nonempty = omega arith;
  small = omega arith;
  distinct = table-distinct;
}

hashtable_insert-InsertLaws_example : InsertLaws table 8 80 5 1 (hashtable_insert table 8 80)
hashtable_insert-InsertLaws_example =
    hashtable_insert-InsertLaws {t = table} table-IsValid 8 80 5 1 (omega arith)

hashtable_remove-RemoveLaws_example : RemoveLaws table 5 8 (hashtable_remove table 5)
hashtable_remove-RemoveLaws_example = hashtable_remove-RemoveLaws {t = table} table-IsValid 5 8

abbrev garbage : List DataItem
garbage = blank ∷ cell 7 3 1 ∷ []

hashtable_create-none_example :
    ((key : ℕ) → hashtable_search (hashtable_create 2 garbage) key ≡ none)
    ↔ ((i : ℕ) → i < 2 → (get_or garbage i blank).used ≢ 1)
hashtable_create-none_example = hashtable_create-none 2 garbage (omega arith) (omega arith)
