-- ===== src/CString/Numbers.antt =====
-- kernel/common.c: numbers as text, atoi and itoa.
pub mod ReadBack
use asterisk.Base.{
  ℕ, zero, suc, ◌+◌, ◌-◌, ◌*◌, ◌/◌, ◌%◌, ◌^◌, Bool, true, false, List, [], ◌∷◌, ◌++◌, ℤ, pos,
  negsuc, to_int32, Option, none, some, ltb, ◌==◌, if◌then◌else◌,
}

-- A `char` as an `int`, which is negative from 128 on, modulo 2 ^ 32.
abbrev pub char_value : ℕ → ℕ
char_value c = if ltb c 128 then c else c + (2 ^ 32 - 256)

-- The loop of `atoi`, with `result` modulo 2 ^ 32.
unfoldable pub atoi_loop : (result : ℕ) → List ℕ → Option ℤ
atoi_loop result [] = none
atoi_loop result (c ∷ str) = elim (c == 0) [
  | true ↦ some (to_int32 result)
  | false ↦ atoi_loop ((result * 10 + char_value c + (2 ^ 32 - b'0')) % 2 ^ 32) str
]

unfoldable pub atoi : List ℕ → Option ℤ
atoi str = atoi_loop 0 str

abbrev pub digit : ℕ → ℕ
digit remainder = if ltb remainder 10 then remainder + b'0' else remainder + b'A' - 10

-- The do-while loop of `itoa`, for a number of as many digits as there is fuel.
unfoldable pub itoa_digits : (fuel ud divisor : ℕ) → List ℕ
itoa_digits zero ud divisor = []
itoa_digits (suc fuel) ud divisor =
    digit (ud % divisor)
    ∷ (elim (ud / divisor == 0) [ true ↦ [] | false ↦ itoa_digits fuel (ud / divisor) divisor ])

abbrev pub last_of : ℕ → List ℕ → ℕ
last_of x [] = x
last_of x (y ∷ ys) = last_of y ys

abbrev pub all_but_last : ℕ → List ℕ → List ℕ
all_but_last x [] = []
all_but_last x (y ∷ ys) = x ∷ all_but_last y ys

-- The loop that swaps the bytes at `p1` and `p2`, on the list of the bytes from `p1` to `p2`.
unfoldable pub swap_loop : (fuel : ℕ) → List ℕ → List ℕ
swap_loop zero xs = xs
swap_loop (suc fuel) [] = []
swap_loop (suc fuel) (x ∷ []) = x ∷ []
swap_loop (suc fuel) (x ∷ y ∷ ys) = last_of y ys ∷ (swap_loop fuel (all_but_last y ys) ++ (x ∷ []))

-- `ud` where `d` is not printed with a sign
abbrev pub as_unsigned : ℤ → ℕ
as_unsigned (pos n) = n
as_unsigned (negsuc n) = 2 ^ 32 - 1 - n

abbrev pub text_of : (ud divisor : ℕ) → List ℕ
text_of ud divisor = swap_loop 10 (itoa_digits 10 ud divisor)

-- The string that is written to `buf`, without its terminator.
unfoldable pub itoa : (base : ℕ) → ℤ → List ℕ
itoa base (pos n) = text_of n (if base == b'x' then 16 else 10)
itoa base (negsuc n) =
    if base == b'd'
    then b'-' ∷ text_of (n + 1) 10
    else text_of (as_unsigned (negsuc n)) (if base == b'x' then 16 else 10)
