-- ===== src/CString/Examples.antt =====
-- The theorems at short strings, and runs of the code.
use asterisk.Base.{ℕ, ◌≡◌, refl, arith, List, [], ◌∷◌, ◌++◌, neg, pos, some, to_int32, none}
use asterisk.CString.{strcpy, str_first_index_of, memcmp}
use asterisk.CString.Numbers.{atoi, atoi_loop, itoa, itoa_digits, swap_loop}
use asterisk.CString.Numbers.ReadBack.{atoi-itoa}
use asterisk.CString.Printf.{text, number, sprintf, sprintf_va, sprintf_loop}
use asterisk.CString.Printf.Fits.{Plain, sprintf-overruns}
use asterisk.CString.Compare.{NoZero}
use asterisk.CString.Copy.{strcpy-empty}
use asterisk.CString.Index.{FirstIndex, str_first_index_of-FirstIndex}

abbrev dev : List ℕ
dev = b'd' ∷ b'e' ∷ b'v' ∷ []

dev-NoZero : NoZero dev
dev-NoZero = (refl, (refl, (refl, tt)))

strcpy-empty_example :
    strcpy (1 ∷ 1 ∷ 1 ∷ 1 ∷ 1 ∷ []) (0 ∷ (dev ++ (0 ∷ []))) ≡ some (0 ∷ (dev ++ (0 ∷ [])))
strcpy-empty_example = strcpy-empty dev [] (1 ∷ 1 ∷ 1 ∷ 1 ∷ 1 ∷ []) dev-NoZero (omega arith)

str_first_index_of-FirstIndex_example :
    FirstIndex b'v' dev 0 (str_first_index_of (dev ++ (0 ∷ [])) b'v')
str_first_index_of-FirstIndex_example = str_first_index_of-FirstIndex b'v' dev [] dev-NoZero

no_slash : str_first_index_of (dev ++ (0 ∷ [])) b'/' ≡ some (neg 1)
unfolding str_first_index_of
no_slash = refl

atoi-itoa_example : atoi (itoa b'd' (to_int32 1905) ++ (0 ∷ [])) ≡ some (to_int32 1905)
atoi-itoa_example = atoi-itoa b'd' 1905 [] (λ e. omega arith) (omega arith) (λ e. omega arith)

-- A number with a sign is not read back: -5 becomes -25.
minus_five : atoi (itoa b'd' (neg 5) ++ (0 ∷ [])) ≡ some (neg 25)
unfolding atoi atoi_loop itoa itoa_digits swap_loop to_int32
minus_five = refl

dev-Plain : Plain dev
dev-Plain = (refl, refl, refl, (refl, refl, refl, (refl, refl, refl, refl)))

sprintf-overruns_example : sprintf 2 2 (b'%' ∷ b's' ∷ 0 ∷ []) (text (dev ++ (0 ∷ [])) ∷ []) ≡ none
sprintf-overruns_example = sprintf-overruns 2 2 dev [] (0 ∷ []) [] dev-NoZero (omega arith)

-- "%p" prints in decimal.
pointer :
    sprintf 20 20 (b'%' ∷ b'p' ∷ 0 ∷ []) (number (pos 31) ∷ [])
    ≡ some (b'0' ∷ b'x' ∷ b'3' ∷ b'1' ∷ 0 ∷ [])
unfolding sprintf sprintf_va sprintf_loop itoa itoa_digits swap_loop
pointer = refl

-- The highest byte compares as less than 0.
memcmp_sign : memcmp (200 ∷ []) (10 ∷ []) 1 ≡ some (neg 66)
unfolding memcmp
memcmp_sign = refl
