-- ===== src/CString.antt =====
-- kernel/common.c: the functions on strings. A `char *` is the list of the bytes that may be read
-- or written from there on, and `none` stands for an access beyond them.
pub mod Compare
pub mod Copy
pub mod Index
pub mod Bounded
pub mod Numbers
pub mod Printf
pub mod Memory
mod Examples
use asterisk.Base.{
  ℕ, zero, suc, ◌+◌, ◌-◌, ◌%◌, ltb, Bool, true, false, not, ◌&&◌, ◌||◌, List, [], ◌∷◌, ℤ, pos, neg,
  negsuc, Option, none, some, ◌==◌, if◌then◌else◌,
}

-- `strlen` of a pointer that is not NULL.
unfoldable pub strlen : List ℕ → Option ℕ
strlen [] = none
strlen (c ∷ src) = elim (c == 0) [
  | true ↦ some 0
  | false ↦ elim (strlen src) [ none ↦ none | some n ↦ some (suc n) ]
]

-- The loop from `i` on.
first_index_loop : List ℕ → ℕ → ℕ → Option ℤ
first_index_loop [] c i = none
first_index_loop (x ∷ src) c i = elim (x == 0) [
  | true ↦ some (neg 1)
  | false ↦ elim (x == c) [ true ↦ some (pos i) | false ↦ first_index_loop src c (i + 1) ]
]

unfoldable pub str_first_index_of : List ℕ → ℕ → Option ℤ
unfolding first_index_loop
str_first_index_of src c = first_index_loop src c 0

unfoldable pub strcmp : List ℕ → List ℕ → Option ℕ
strcmp [] str2 = none
strcmp (a ∷ str1) [] = none
strcmp (a ∷ str1) (b ∷ str2) = elim (not (a == 0) && not (b == 0)) [
  | true ↦ elim (a == b) [ true ↦ strcmp str1 str2 | false ↦ some 1 ]
  | false ↦ some (if (a == 0 && not (b == 0)) || (not (a == 0) && b == 0) then 1 else 0)
]

-- The bytes at `dest` after the copy.
unfoldable pub strcpy : List ℕ → List ℕ → Option (List ℕ)
strcpy [] src = none
strcpy (d ∷ []) src = none
strcpy (d ∷ d' ∷ dest) [] = none
strcpy (d ∷ d' ∷ dest) (c ∷ []) = none
strcpy (d ∷ d' ∷ dest) (c ∷ c' ∷ src) = elim (c' == 0) [
  | true ↦ some (c ∷ 0 ∷ dest)
  | false ↦ elim (strcpy (d' ∷ dest) (c' ∷ src)) [ none ↦ none | some out ↦ some (c ∷ out) ]
]

-- The loop of `strncpy` with `num` bytes to go; `ended` is `source_ended`.
strncpy_loop : (ended : Bool) → ℕ → List ℕ → List ℕ → Option (List ℕ)
strncpy_loop ended zero dest src = some dest
strncpy_loop ended (suc num) [] src = none
strncpy_loop true (suc num) (d ∷ dest) src = elim (strncpy_loop true num dest src) [
  | none ↦ none
  | some out ↦ some (0 ∷ out)
]
strncpy_loop false (suc num) (d ∷ dest) [] = none
strncpy_loop false (suc num) (d ∷ dest) (c ∷ src) = elim (strncpy_loop (c == 0) num dest src) [
  | none ↦ none
  | some out ↦ some (c ∷ out)
]

-- The bytes at `dest` after the copy.
unfoldable pub strncpy : List ℕ → List ℕ → ℕ → Option (List ℕ)
unfolding strncpy_loop
strncpy dest src num = strncpy_loop false num dest src

-- The difference of two numbers
abbrev pub difference : ℕ → ℕ → ℤ
difference a b = if ltb a b then neg (b - a) else pos (a - b)

-- The difference of two `char`s, which is that of the bytes with their highest bit changed.
abbrev pub char_difference : ℕ → ℕ → ℤ
char_difference a b = difference ((a + 128) % 256) ((b + 128) % 256)

unfoldable pub strncmp : List ℕ → List ℕ → (length : ℕ) → Option ℤ
strncmp str1 str2 zero = some (pos 0)
strncmp [] str2 (suc n) = none
strncmp (a ∷ str1) [] (suc n) = none
strncmp (a ∷ str1) (b ∷ str2) (suc n) = elim (a == b) [
  | true ↦ strncmp str1 str2 n
  | false ↦ some (char_difference a b)
]

-- The conversion of an `int` to `int8_t`
abbrev pub to_int8 : ℤ → ℤ
to_int8 (pos n) = if ltb (n % 256) 128 then pos (n % 256) else neg (256 - n % 256)
to_int8 (negsuc n) = if ltb (n % 256) 128 then negsuc (n % 256) else pos (255 - n % 256)

unfoldable pub memcmp : List ℕ → List ℕ → ℕ → Option ℤ
memcmp p1 p2 zero = some (pos 0)
memcmp [] p2 (suc c) = none
memcmp (a ∷ p1) [] (suc c) = none
memcmp (a ∷ p1) (b ∷ p2) (suc c) = elim (a == b) [
  | true ↦ memcmp p1 p2 c
  | false ↦ some (to_int8 (difference a b))
]

-- The second loop of `strcat`, and its terminator.
abbrev pub copy_string : List ℕ → List ℕ → Option (List ℕ)
copy_string [] src = none
copy_string (d ∷ dest) [] = none
copy_string (d ∷ dest) (c ∷ src) = elim (c == 0) [
  | true ↦ some (0 ∷ dest)
  | false ↦ elim (copy_string dest src) [ none ↦ none | some out ↦ some (c ∷ out) ]
]

-- The first loop of `strcat`, which finds the end of `dest`, with the copy behind it.
unfoldable pub strcat : List ℕ → List ℕ → Option (List ℕ)
strcat [] src = none
strcat (d ∷ dest) src = elim (d == 0) [
  | true ↦ copy_string (d ∷ dest) src
  | false ↦ elim (strcat dest src) [ none ↦ none | some out ↦ some (d ∷ out) ]
]
