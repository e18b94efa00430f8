-- ===== src/HashTable.antt =====
-- kernel/hashtable.c: open addressing with linear probing over an array of items. A function that
-- changes `*hashtable` returns the new table beside its result.
pub mod Probe
pub mod Lookup
pub mod Write
pub mod Insert
pub mod Remove
pub mod Fresh
mod Examples
use asterisk.Base.{
  ℕ, zero, suc, ◌+◌, ◌%◌, ◌^◌, Bool, true, false, List, Option, none, some, ◌==◌, if◌then◌else◌,
  get_or, set,
}

-- `struct DataItem`
pub record DataItem : Type 0 where
  pub value : ℕ
  pub key : ℕ
  pub used : ℕ

-- `struct HashTable`
pub record HashTable : Type 0 where
  pub items : List DataItem
  pub capacity : ℕ

abbrev pub blank : DataItem
blank = record { value = 0; key = 0; used = 0 }

-- `items[i]`
abbrev pub item : HashTable → ℕ → DataItem
item t i = get_or t.items i blank

unfoldable pub hash_code : HashTable → ℕ → ℕ
hash_code t key = key % t.capacity

-- `memory` is what the second `kmalloc` returns: `sizeof(DataItem) * capacity` bytes, whose values
-- nothing sets.
unfoldable pub hashtable_create : ℕ → List DataItem → HashTable
hashtable_create capacity memory = record { items = memory; capacity = capacity }

-- `++hash_index; hash_index %= hashtable->capacity;`
abbrev pub next_cell : HashTable → ℕ → ℕ
next_cell t i = (i + 1) % 2 ^ 32 % t.capacity

-- The test of the search loop at the cell `i`.
abbrev pub matches : HashTable → ℕ → ℕ → Bool
matches t key i =
    if (item t i).key == key then (if (item t i).used == 1 then true else false) else false

abbrev pub is_free : HashTable → ℕ → Bool
is_free t i = (item t i).used == 0

-- Both loops walk from the cell `i` until a cell passes the test; `n` is `capacity - counter`.
unfoldable pub probe : (ℕ → Bool) → HashTable → ℕ → ℕ → Option ℕ
probe test t zero i = none
probe test t (suc n) i = elim (test i) [ true ↦ some i | false ↦ probe test t n (next_cell t i) ]

-- The result is the index of the item that the source returns the address of.
unfoldable pub search_internal : HashTable → ℕ → Option ℕ
search_internal t key = probe (matches t key) t t.capacity (hash_code t key)

-- What goes to `*value`, if the search succeeds.
unfoldable pub hashtable_search : HashTable → ℕ → Option ℕ
hashtable_search t key = elim (search_internal t key) [
  | none ↦ none
  | some i ↦ some (item t i).value
]

abbrev pub put_item : HashTable → ℕ → DataItem → HashTable
put_item t i d = record t { items = set t.items i d }

unfoldable pub hashtable_insert : HashTable → ℕ → ℕ → Bool × HashTable
hashtable_insert t key value = elim (search_internal t key) [
  | some i ↦ (true, put_item t i (record (item t i) { value = value }))
  | none ↦ elim (probe (is_free t) t t.capacity (hash_code t key)) [
    | some i ↦ (true, put_item t i (record { value = value; key = key; used = 1 }))
    | none ↦ (false, t)
  ]
]

unfoldable pub hashtable_remove : HashTable → ℕ → Bool × HashTable
hashtable_remove t key = elim (search_internal t key) [
  | some i ↦ (true, put_item t i (record (item t i) { used = 0 }))
  | none ↦ (false, t)
]
