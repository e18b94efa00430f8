-- ===== src/CString/Printf.antt =====
-- kernel/common.c: sprintf_va and sprintf.
pub mod Fits
use asterisk.Base.{
  ℕ, zero, suc, ◌+◌, ◌-◌, ◌*◌, ◌/◌, ◌%◌, ◌^◌, Bool, true, false, ◌||◌, List, [], ◌∷◌, ◌++◌, ℤ, pos,
  negsuc, Option, none, some, ltb, leb, ◌==◌, if◌then◌else◌, length,
}
use asterisk.CString.Numbers.{itoa, as_unsigned}

-- The arguments behind the format: a number, or a pointer to a string; the null pointer is `null`.
pub data Argument : Type 0 where
  number : ℤ → Argument
  text : List ℕ → Argument
  null : Argument

-- The string at a pointer, up to its terminator.
abbrev pub string_at : List ℕ → Option (List ℕ)
string_at [] = none
string_at (c ∷ s) = elim (c == 0) [
  | true ↦ some []
  | false ↦ elim (string_at s) [ none ↦ none | some r ↦ some (c ∷ r) ]
]

abbrev null_text : List ℕ
null_text = b'(' ∷ b'n' ∷ b'u' ∷ b'l' ∷ b'l' ∷ b')' ∷ []

-- The bytes for one conversion, and the arguments that are left. An argument of another kind than
-- the conversion's is not defined.
abbrev pub converted : (conversion : ℕ) → List Argument → Option (List ℕ × List Argument)
converted c [] = none
converted c (number d ∷ args) =
    if c == b's'
    then none
    else if c == b'p' || c == b'x'
    then some (b'0' ∷ b'x' ∷ itoa c d, args)
    else if c == b'd' || c == b'u'
    then some (itoa c d, args)
    else some (as_unsigned d % 2 ^ 8 ∷ [], args)
converted c (text s ∷ args) =
    if c == b's' then (elim (string_at s) [ none ↦ none | some r ↦ some (r, args) ]) else none
converted c (null ∷ args) = if c == b's' then some (null_text, args) else none

abbrev pub newline_bytes : (replace : Bool) → List ℕ
newline_bytes true = 13 ∷ 10 ∷ []
newline_bytes false = 10 ∷ []

-- The terminator; `capacity` is how many bytes there are at `buffer`, and `none` a write behind
-- them.
abbrev pub terminate : (capacity : ℕ) → List ℕ → Option (List ℕ)
terminate capacity out = if ltb (length out) capacity then some (out ++ (0 ∷ [])) else none

-- Bytes are written, and then the test ends the loop or not.
abbrev pub write_then :
    (capacity size : ℕ) → (out bytes : List ℕ) → (List ℕ → Option (List ℕ)) → Option (List ℕ)
write_then capacity size out bytes continue = elim (ltb capacity (length (out ++ bytes))) [
  | true ↦ none
  | false ↦ elim (leb ((size + 2 ^ 32 - 1) % 2 ^ 32) (length (out ++ bytes))) [
    | true ↦ terminate capacity (out ++ bytes)
    | false ↦ continue (out ++ bytes)
  ]
]

-- The loop over the format, with what has been written so far.
unfoldable pub sprintf_loop :
    (capacity size : ℕ)
    → (replace : Bool) → (format : List ℕ) → List Argument
    → (out : List ℕ) → Option (List ℕ)
sprintf_loop capacity size replace [] args out = none
sprintf_loop capacity size replace (c ∷ []) args out =
    if c == 0 then terminate capacity out else none
sprintf_loop capacity size replace (c ∷ d ∷ format) args out = elim (c == 0) [
  | true ↦ terminate capacity out
  | false ↦ elim (c == 10) [
    | true ↦
        write_then capacity size out (newline_bytes replace)
          (sprintf_loop capacity size replace (d ∷ format) args)
    | false ↦ elim (c == b'%') [
      | true ↦ elim (converted d args) [
        | none ↦ none
        | some (bytes, args') ↦
            write_then capacity size out bytes (sprintf_loop capacity size replace format args')
      ]
      | false ↦
          write_then capacity size out (c ∷ [])
            (sprintf_loop capacity size replace (d ∷ format) args)
    ]
  ]
]

-- What is then at `buffer`; the result of the function is the number of bytes before the
-- terminator.
unfoldable pub sprintf_va :
    (capacity size : ℕ) → (replace : Bool) → List ℕ → List Argument → Option (List ℕ)
sprintf_va capacity size replace format args = sprintf_loop capacity size replace format args []

unfoldable pub sprintf : (capacity size : ℕ) → List ℕ → List Argument → Option (List ℕ)
sprintf capacity size format args = sprintf_va capacity size false format args
