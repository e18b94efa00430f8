-- ===== src/CString/Compare.antt =====
-- `strlen` and `strcmp` on terminated strings.
use asterisk.Base.{
  ℕ, ◌≡◌, ◌≢◌, ◌∙◌, ◌⊎◌, sym, refl, ap, ap₂, subst, Bool, true, false, ◌&&◌, List, [], ◌∷◌, ◌++◌,
  some, length, ◌==◌, ==_refl, ==→eq, Bool-cases, inl, inr, if◌then◌else◌,
}
use asterisk.CString.{strlen, strcmp}

-- No byte is 0.
abbrev pub NoZero : List ℕ → Type 0
NoZero [] = Unit
NoZero (c ∷ s) = ((c == 0) ≡ false) × NoZero s

-- `strlen` of a terminated string is the number of its bytes before the terminator.
pub strlen-length : (s rest : List ℕ) → NoZero s → strlen (s ++ (0 ∷ rest)) ≡ some (length s)
unfolding strlen
strlen-length [] rest nz = refl
strlen-length (c ∷ s) rest nz = rw (nz.0, strlen) (rw (strlen-length s rest nz.1) refl)

abbrev same : List ℕ → List ℕ → Bool
same [] [] = true
same [] (b ∷ t) = false
same (a ∷ s) [] = false
same (a ∷ s) (b ∷ t) = a == b && same s t

same_refl : (s : List ℕ) → same s s ≡ true
same_refl [] = refl
same_refl (a ∷ s) = rw (==_refl a) (same_refl s)

same_eq : (s t : List ℕ) → same s t ≡ true → s ≡ t
same_eq [] [] e = refl
same_eq [] (b ∷ t) e = absurd cc
same_eq (a ∷ s) [] e = absurd cc
same_eq (a ∷ s) (b ∷ t) e = elim (Bool-cases (a == b)) [
  | inl p ↦ ap₂ (λ x l. x ∷ l) (==→eq a b p) (same_eq s t (subst (λ q. (q && same s t) ≡ true) p e))
  | inr n ↦ absurd (let h : false ≡ true = subst (λ q. (q && same s t) ≡ true) n e in cc)
]

strcmp-same :
    (s t x y : List ℕ)
    → NoZero s
    → NoZero t
    → strcmp (s ++ (0 ∷ x)) (t ++ (0 ∷ y)) ≡ some (if same s t then 0 else 1)
unfolding strcmp
strcmp-same [] [] x y nz mz = refl
strcmp-same [] (b ∷ t) x y nz mz = rw (mz.0, strcmp) refl
strcmp-same (a ∷ s) [] x y nz mz = rw (nz.0, strcmp) (rw nz.0 refl)
strcmp-same (a ∷ s) (b ∷ t) x y nz mz = elim (Bool-cases (a == b)) [
  | inl p ↦ rw (nz.0, strcmp) (rw mz.0 (rw p (strcmp-same s t x y nz.1 mz.1)))
  | inr n ↦ rw (nz.0, strcmp) (rw mz.0 (rw n refl))
]

-- `strcmp` of two terminated strings ends and returns 0 if they are equal and 1 if not.
pub strcmp-zero :
    (s t x y : List ℕ)
    → NoZero s
    → NoZero t
    → ((strcmp (s ++ (0 ∷ x)) (t ++ (0 ∷ y)) ≡ some 0) × (s ≡ t))
      ⊎ ((strcmp (s ++ (0 ∷ x)) (t ++ (0 ∷ y)) ≡ some 1) × (s ≢ t))
strcmp-zero s t x y nz mz = elim (Bool-cases (same s t)) [
  | inl e ↦ inl (strcmp-same s t x y nz mz ∙ rw e refl, same_eq s t e)
  | inr e ↦ inr (
    strcmp-same s t x y nz mz ∙ rw e refl,
    λ p. let h : true ≡ false = sym (same_refl s) ∙ ap (same s) p ∙ e in cc,
  )
]
