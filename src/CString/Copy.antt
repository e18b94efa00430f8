-- ===== src/CString/Copy.antt =====
-- `strcpy`, and what it does with an empty string.
use asterisk.Base.{
  ℕ, suc, ◌+◌, ◌≤◌, ◌≡◌, ◌∙◌, sym, refl, ap, arith, List, [], ◌∷◌, ◌++◌, some, length, drop,
}
use asterisk.CString.{strlen, strcpy}
use asterisk.CString.Compare.{NoZero, strlen-length}

-- What `strcpy` does from one byte on, whatever that byte is, with the terminated string `s` behind
-- it.
copies :
    (c : ℕ) (s rest dest : List ℕ)
    → NoZero s
    → suc (suc (length s)) ≤ length dest
    → strcpy dest (c ∷ (s ++ (0 ∷ rest))) ≡ some (c ∷ (s ++ (0 ∷ drop (suc (suc (length s))) dest)))
unfolding strcpy
copies c s rest [] nz h = absurd (omega arith)
copies c s rest (d ∷ []) nz h = absurd (omega arith)
copies c [] rest (d ∷ d' ∷ dest) nz h = refl
copies c (b ∷ s) rest (d ∷ d' ∷ dest) nz h =
    rw (nz.0, strcpy) (rw (copies b s rest (d' ∷ dest) nz.1 (omega arith)) refl)

-- `strcpy` of a terminated string that is not empty, to where its bytes and the terminator fit,
-- writes them there and nothing else, so that the copy has the same length.
pub strcpy-copies :
    (c : ℕ) (s rest dest : List ℕ)
    → NoZero (c ∷ s)
    → length (c ∷ s) + 1 ≤ length dest
    → (copy : List ℕ) × (strcpy dest ((c ∷ s) ++ (0 ∷ rest)) ≡ some copy)
      × (copy ≡ (c ∷ s) ++ (0 ∷ drop (length (c ∷ s) + 1) dest))
      × (strlen copy ≡ strlen ((c ∷ s) ++ (0 ∷ rest)))
strcpy-copies c s rest dest nz h =
    let e : suc (suc (length s)) ≡ length (c ∷ s) + 1 = omega arith in
    let left = drop (length (c ∷ s) + 1) dest in
    (
      (c ∷ s) ++ (0 ∷ left),
      copies c s rest dest nz.1 (omega (arith, h))
          ∙ ap (λ n. some (c ∷ (s ++ (0 ∷ drop n dest)))) e,
      refl,
      strlen-length (c ∷ s) left nz ∙ sym (strlen-length (c ∷ s) rest nz),
    )

-- `strcpy` of an empty string does not stop at its terminator: with another terminated string
-- behind it, it writes both, so two bytes and that string where one byte was due.
pub strcpy-empty :
    (s rest dest : List ℕ)
    → NoZero s
    → length s + 2 ≤ length dest
    → strcpy dest (0 ∷ (s ++ (0 ∷ rest))) ≡ some (0 ∷ (s ++ (0 ∷ drop (length s + 2) dest)))
strcpy-empty s rest dest nz h =
    let e : suc (suc (length s)) ≡ length s + 2 = omega arith in
    copies 0 s rest dest nz (omega (arith, h)) ∙ ap (λ n. some (0 ∷ (s ++ (0 ∷ drop n dest)))) e
