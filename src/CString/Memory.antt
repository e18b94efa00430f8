-- ===== src/CString/Memory.antt =====
-- memcmp and strcat of kernel/common.c.
use asterisk.Base.{
  ℕ, suc, ◌+◌, ◌≤◌, ◌<◌, ◌≡◌, ◌≢◌, ◌⊎◌, inl, inr, refl, ap₂, arith, Bool-cases, true, false, List,
  [], ◌∷◌, ◌++◌, ℤ, pos, Option, none, some, ◌==◌, ==→eq, length, drop,
}
use asterisk.CString.{difference, to_int8, memcmp, copy_string, strcat}
use asterisk.CString.Compare.{NoZero}

-- The bytes are equal, or there is a difference that is not lost in eight bits.
abbrev pub Compared : List ℕ → List ℕ → Option ℤ → Type 0
Compared xs ys none = true ≡ false
Compared xs ys (some r) = ((xs ≡ ys) × (r ≡ pos 0)) ⊎ ((xs ≢ ys) × (r ≢ pos 0))

abbrev pub Bytes : List ℕ → Type 0
Bytes [] = true ≡ true
Bytes (c ∷ s) = (c < 256) × Bytes s

to_int8-nonzero :
    (a b : ℕ) → a < 256 → b < 256 → (a == b) ≡ false → to_int8 (difference a b) ≢ pos 0
to_int8-nonzero a b la lb ne e = ground arith

cons-first : (x y : ℕ) (xs ys : List ℕ) → x ∷ xs ≡ y ∷ ys → x ≡ y
cons-first x y xs ys e = cc

cons-rest : (x y : ℕ) (xs ys : List ℕ) → x ∷ xs ≡ y ∷ ys → xs ≡ ys
cons-rest x y xs ys e = cc

Compared-cons :
    (x y : ℕ) (xs ys : List ℕ) (r : Option ℤ)
    → x ≡ y
    → Compared xs ys r
    → Compared (x ∷ xs) (y ∷ ys) r
Compared-cons x y xs ys none e c = c
Compared-cons x y xs ys (some r) e (inl (same, zero_r)) = inl (ap₂ (λ a s. a ∷ s) e same, zero_r)
Compared-cons x y xs ys (some r) e (inr (differ, not_zero)) =
    inr (λ same. differ (cons-rest x y xs ys same), not_zero)

-- memcmp of as many bytes as there are in both places ends, and is 0 exactly if they are the same.
pub memcmp-Compared :
    (xs ys : List ℕ)
    → Bytes xs
    → Bytes ys
    → length xs ≡ length ys
    → Compared xs ys (memcmp xs ys (length xs))
unfolding memcmp
memcmp-Compared [] [] bx by h = inl (refl, refl)
memcmp-Compared [] (y ∷ ys) bx by h = absurd (omega arith)
memcmp-Compared (x ∷ xs) [] bx by h = absurd (omega arith)
memcmp-Compared (x ∷ xs) (y ∷ ys) (lx, bx) (ly, by) h = elim (Bool-cases (x == y)) [
  | inl e ↦
      rw (e, memcmp)
        (Compared-cons x y xs ys (memcmp xs ys (length xs)) (==→eq x y e)
          (memcmp-Compared xs ys bx by (omega (arith, h))))
  | inr e ↦
      rw (e, memcmp)
        (inr (λ same. distinct x y e (cons-first x y xs ys same), to_int8-nonzero x y lx ly e))
]
  where
    distinct : (a b : ℕ) → (a == b) ≡ false → a ≢ b
    distinct a b e same = ground arith

copy_string-copies :
    (s rest dest : List ℕ)
    → NoZero s
    → length s + 1 ≤ length dest
    → copy_string dest (s ++ (0 ∷ rest)) ≡ some (s ++ (0 ∷ drop (suc (length s)) dest))
copy_string-copies s rest [] nz fits = absurd (omega arith)
copy_string-copies [] rest (d ∷ dest) nz fits = refl
copy_string-copies (c ∷ s) rest (d ∷ dest) (e, nz) fits =
    rw (e, copy_string, copy_string-copies s rest dest nz (omega (arith, fits))) refl

-- strcat of terminated strings, with room for both and a terminator, leaves the first string, the
-- second one and a terminator, and the bytes behind that as they were.
pub strcat-appends :
    (t s rest dest : List ℕ)
    → NoZero t
    → NoZero s
    → length s ≤ length dest
    → strcat (t ++ (0 ∷ dest)) (s ++ (0 ∷ rest)) ≡ some (t ++ (s ++ (0 ∷ drop (length s) dest)))
unfolding strcat
strcat-appends [] s rest dest nt ns fits =
    copy_string-copies s rest (0 ∷ dest) ns (omega (arith, fits))
strcat-appends (c ∷ t) s rest dest (e, nt) ns fits =
    rw (e, strcat, strcat-appends t s rest dest nt ns fits) refl
