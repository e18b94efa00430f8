-- ===== src/CString/Numbers/ReadBack.antt =====
-- What itoa writes in decimal, atoi reads back.
use asterisk.Base.{
  ℕ, zero, suc, ◌+◌, ◌-◌, ◌*◌, ◌/◌, ◌%◌, ◌^◌, ◌≤◌, ◌<◌, ◌≡◌, ◌≢◌, ◌∙◌, sym, refl, ap, arith,
  Bool-cases, inl, inr, true, false, List, [], ◌∷◌, ◌++◌, append_assoc, pos, negsuc, to_int32, some,
  ltb, ltb→lt, ltb→le, lt→ltb, to_int32-small, ◌==◌, ==→eq, length,
}
use asterisk.CString.Numbers.{
  atoi_loop, atoi, digit, itoa_digits, last_of, all_but_last, swap_loop, text_of, itoa,
}

-- The bytes in the other order
abbrev reversed : List ℕ → List ℕ
reversed [] = []
reversed (x ∷ xs) = reversed xs ++ (x ∷ [])

ends : (x : ℕ) (xs : List ℕ) → all_but_last x xs ++ (last_of x xs ∷ []) ≡ x ∷ xs
ends x [] = refl
ends x (y ∷ ys) = ap (λ r. x ∷ r) (ends y ys)

reversed-snoc : (xs : List ℕ) (x : ℕ) → reversed (xs ++ (x ∷ [])) ≡ x ∷ reversed xs
reversed-snoc [] x = refl
reversed-snoc (y ∷ ys) x = ap (λ r. r ++ (y ∷ [])) (reversed-snoc ys x)

length-all_but_last : (x : ℕ) (xs : List ℕ) → length (all_but_last x xs) ≡ length xs
length-all_but_last x [] = omega arith
length-all_but_last x (y ∷ ys) = omega (arith, length-all_but_last y ys)

swap_loop-reversed : (fuel : ℕ) (xs : List ℕ) → length xs ≤ fuel → swap_loop fuel xs ≡ reversed xs
unfolding swap_loop
swap_loop-reversed zero [] h = refl
swap_loop-reversed zero (x ∷ xs) h = absurd (omega arith)
swap_loop-reversed (suc fuel) [] h = refl
swap_loop-reversed (suc fuel) (x ∷ []) h = refl
swap_loop-reversed (suc fuel) (x ∷ y ∷ ys) h =
    ap (λ r. last_of y ys ∷ (r ++ (x ∷ [])))
      (swap_loop-reversed fuel (all_but_last y ys) (omega (arith, length-all_but_last y ys)))
    ∙ ap (λ r. r ++ (x ∷ []))
        (sym (reversed-snoc (all_but_last y ys) (last_of y ys)) ∙ ap reversed (ends y ys))

-- The value of decimal digits, the lowest first.
abbrev value : List ℕ → ℕ
value [] = 0
value (d ∷ ds) = (d - b'0') + 10 * value ds

abbrev Digits : List ℕ → Type 0
Digits [] = true ≡ true
Digits (d ∷ ds) = (b'0' ≤ d) × (d ≤ b'9') × Digits ds

abbrev power10 : ℕ → ℕ
power10 zero = 1
power10 (suc k) = 10 * power10 k

decimal : (n : ℕ) → n < 10 → (digit n ≡ n + b'0')
decimal n h = ground arith

numeral-value :
    (fuel n : ℕ)
    → n < power10 fuel
    → (value (itoa_digits fuel n 10) ≡ n)
      × Digits (itoa_digits fuel n 10)
      × (length (itoa_digits fuel n 10) ≤ fuel)
unfolding itoa_digits
numeral-value zero n h = (omega (arith, h), refl, omega arith)
numeral-value (suc fuel) n h =
    let d = decimal (n % 10) (omega arith) in
    let (v, ok, len) = numeral-value fuel (n / 10) (omega (arith, h)) in
    elim (Bool-cases (n / 10 == 0)) [
      | inl e ↦
          let none_left = ==→eq (n / 10) 0 e in
          rw (e, itoa_digits, d)
            (omega (arith, none_left), (omega arith, omega arith, refl), omega arith)
      | inr e ↦
          rw (e, itoa_digits, d)
            (omega (arith, v), (omega arith, omega arith, ok), omega (arith, len))
    ]

atoi_loop-digit :
    (r d : ℕ) (tail : List ℕ)
    → b'0' ≤ d
    → d ≤ b'9'
    → r * 10 + (d - b'0') < 2 ^ 32
    → atoi_loop r (d ∷ tail) ≡ atoi_loop ((d - b'0') + 10 * r) tail
unfolding atoi_loop
atoi_loop-digit r d tail lo hi fits =
    let not_end : (d == 0) ≡ false = ground arith in
    let small = lt→ltb d 128 (omega (arith, hi)) in
    let sum : (r * 10 + d + (2 ^ 32 - 48)) % 2 ^ 32 ≡ (d - 48) + 10 * r =
      omega (arith, lo, hi, fits) in
    rw (not_end, atoi_loop, small, sum) refl

atoi_loop-reversed :
    (ds tail : List ℕ)
    → Digits ds
    → value ds < 2 ^ 32
    → atoi_loop 0 (reversed ds ++ tail) ≡ atoi_loop (value ds) tail
atoi_loop-reversed [] tail ok fits = refl
atoi_loop-reversed (d ∷ ds) tail (lo, hi, ok) fits =
    ap (atoi_loop 0) (append_assoc (reversed ds) (d ∷ []) tail)
    ∙ (atoi_loop-reversed ds (d ∷ tail) ok (omega (arith, fits))
        ∙ atoi_loop-digit (value ds) d tail lo hi (omega (arith, fits)))

text_of-atoi :
    (n : ℕ) (rest : List ℕ)
    → n < 2 ^ 32
    → atoi_loop 0 (text_of n 10 ++ (0 ∷ rest)) ≡ some (to_int32 n)
unfolding atoi_loop
text_of-atoi n rest h =
    let (v, ok, len) = numeral-value 10 n (omega (arith, h)) in
    let swapped = swap_loop-reversed 10 (itoa_digits 10 n 10) len in
    ap (λ t. atoi_loop 0 (t ++ (0 ∷ rest))) swapped
    ∙ (atoi_loop-reversed (itoa_digits 10 n 10) (0 ∷ rest) ok (omega (arith, v, h))
        ∙ ap (λ k. some (to_int32 k)) v)

to_int32-large : (n : ℕ) → 2 ^ 31 ≤ n → to_int32 n ≡ negsuc (2 ^ 32 - 1 - n)
unfolding to_int32
to_int32-large n h = ground arith

-- A number of 32 bits that itoa writes in another base than 'x', and not with a sign, is what atoi
-- reads from the text.
pub atoi-itoa :
    (base n : ℕ) (rest : List ℕ)
    → base ≢ b'x'
    → n < 2 ^ 32
    → (base ≡ b'd' → n < 2 ^ 31)
    → atoi (itoa base (to_int32 n) ++ (0 ∷ rest)) ≡ some (to_int32 n)
unfolding atoi itoa
atoi-itoa base n rest other fits no_sign =
    let not_x : (base == b'x') ≡ false = ground arith in
    elim (Bool-cases (ltb n (2 ^ 31))) [
      | inl small ↦
          let low : to_int32 n ≡ pos n = to_int32-small n (ltb→lt n (2 ^ 31) small) in
          let back : atoi_loop 0 (itoa base (pos n) ++ (0 ∷ rest)) ≡ some (to_int32 n) =
            rw (not_x, itoa) (text_of-atoi n rest fits) in
          ap (λ d. atoi_loop 0 (itoa base d ++ (0 ∷ rest))) low ∙ back
      | inr large ↦
          let big : 2 ^ 31 ≤ n = ltb→le n (2 ^ 31) large in
          let not_d : (base == b'd') ≡ false = ground (arith, big, no_sign) in
          let high = to_int32-large n big in
          let word : 2 ^ 32 - 1 - (2 ^ 32 - 1 - n) ≡ n = omega (arith, fits) in
          let back : atoi_loop 0 (itoa base (negsuc (2 ^ 32 - 1 - n)) ++ (0 ∷ rest))
              ≡ some (to_int32 n) =
            rw (not_d, itoa, not_x, word) (text_of-atoi n rest fits) in
          ap (λ d. atoi_loop 0 (itoa base d ++ (0 ∷ rest))) high ∙ back
    ]
