-- ===== src/CString/Index.antt =====
-- `str_first_index_of` on terminated strings.
use asterisk.Base.{
  ℕ, suc, ◌+◌, ◌<◌, ◌≡◌, ◌∙◌, ◌⊎◌, refl, ap, arith, false, List, [], ◌∷◌, ◌++◌, ℤ, pos, neg, Option,
  some, length, take, get_or, ◌==◌, ==→eq, Bool-cases, inl, inr,
}
use asterisk.CString.{first_index_loop, str_first_index_of}
use asterisk.CString.Compare.{NoZero}

-- No byte of the list is `c`.
abbrev pub Without : ℕ → List ℕ → Type 0
Without c [] = Unit
Without c (x ∷ s) = ((x == c) ≡ false) × Without c s

-- The first place of `c` in `s`, or none.
abbrev pub FirstIndex : ℕ → List ℕ → ℕ → Option ℤ → Type 0
FirstIndex c s i out =
    ((k : ℕ) × (out ≡ some (pos (i + k)))
      × (k < length s)
      × (get_or s k 0 ≡ c)
      × Without c (take k s))
    ⊎ ((out ≡ some (neg 1)) × Without c s)

at_index : {m n : ℕ} → m ≡ n → some (pos m) ≡ some (pos n)
at_index e = ap (λ k. some (pos k)) e

loop-FirstIndex :
    (c : ℕ) (s rest : List ℕ) (i : ℕ)
    → NoZero s
    → FirstIndex c s i (first_index_loop (s ++ (0 ∷ rest)) c i)
unfolding first_index_loop
loop-FirstIndex c [] rest i nz = inr (refl, tt)
loop-FirstIndex c (x ∷ s) rest i nz = elim (Bool-cases (x == c)) [
  | inl e ↦
      inl (
        0,
        rw (nz.0, first_index_loop) (rw e (at_index (omega arith))),
        omega arith,
        ==→eq x c e,
        tt,
      )
  | inr e ↦ elim (loop-FirstIndex c s rest (i + 1) nz.1) [
    | inl (k, out, h, at, before) ↦ inl (
      suc k,
      rw (nz.0, first_index_loop) (rw e (out ∙ at_index (omega arith))),
      omega (arith, h),
      at,
      (e, before),
    )
    | inr (out, none_there) ↦ inr (rw (nz.0, first_index_loop) (rw e out), (e, none_there))
  ]
]

-- `str_first_index_of` of a terminated string ends: it returns the first place of the byte before
-- the terminator, or -1 if it is not there.
pub str_first_index_of-FirstIndex :
    (c : ℕ) (s rest : List ℕ) → NoZero s → FirstIndex c s 0 (str_first_index_of (s ++ (0 ∷ rest)) c)
unfolding str_first_index_of
str_first_index_of-FirstIndex c s rest nz = loop-FirstIndex c s rest 0 nz
