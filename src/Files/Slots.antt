-- ===== src/Files/Slots.antt =====
-- The search of the array of descriptors.
use asterisk.Base.{
  ℕ, zero, suc, ◌<◌, ◌≤◌, ◌≡◌, ◌∙◌, inl, inr, refl, ap, subst, arith, Bool, Option-cases, true,
  false, not, List, [], ◌∷◌, Option, none, some, ◌==◌, get_or, set, length,
}
use asterisk.PageMemory.Search.{Lowest}
use asterisk.Files.{is_null, is_file, first_slot}

-- The file is at no descriptor.
abbrev pub Absent : ℕ → List (Option ℕ) → Type 0
Absent file [] = true ≡ true
Absent file (x ∷ xs) = (is_file file x ≡ false) × Absent file xs

abbrev pub in_use : List (Option ℕ) → ℕ → Bool
in_use xs i = not (is_null (get_or xs i none))

pub same_file : (f : ℕ) → (f == f) ≡ true
same_file f = ground arith

first_slot-some :
    (p : Option ℕ → Bool) (x : Option ℕ) (xs : List (Option ℕ))
    → p x ≡ true
    → first_slot p (x ∷ xs) ≡ some 0
unfolding first_slot
first_slot-some p x xs e = rw (e, first_slot) refl

later : Option ℕ → Option ℕ
later none = none
later (some i) = some (suc i)

first_slot-later :
    (p : Option ℕ → Bool) (x : Option ℕ) (xs : List (Option ℕ))
    → p x ≡ false
    → first_slot p (x ∷ xs) ≡ later (first_slot p xs)
unfolding first_slot later
first_slot-later p x xs e = rw (e, first_slot) refl

pub first_slot-Absent :
    (file : ℕ) (xs : List (Option ℕ)) → Absent file xs → first_slot (is_file file) xs ≡ none
unfolding first_slot later
first_slot-Absent file [] a = refl
first_slot-Absent file (x ∷ xs) (out, a) =
    first_slot-later (is_file file) x xs out ∙ ap later (first_slot-Absent file xs a)

-- A file that is put at the first empty descriptor is found there again, and without it the
-- descriptors are as they were.
pub first_slot-set :
    (file : ℕ) (xs : List (Option ℕ)) (i : ℕ)
    → Absent file xs
    → first_slot is_null xs ≡ some i
    → (first_slot (is_file file) (set xs i (some file)) ≡ some i)
      × (set (set xs i (some file)) i none ≡ xs)
unfolding first_slot later
first_slot-set file [] i a e = absurd (cc)
first_slot-set file (none ∷ xs) zero (out, a) e =
    (first_slot-some (is_file file) (some file) xs (same_file file), refl)
first_slot-set file (none ∷ xs) (suc i) (out, a) e = absurd (ground arith)
first_slot-set file (some f ∷ xs) i (out, a) e = elim (Option-cases (first_slot is_null xs)) [
  | inl none_empty ↦
      (let e' : first_slot is_null (some f ∷ xs) ≡ none = ap later none_empty in absurd (cc))
  | inr (k, found) ↦
      let e' : first_slot is_null (some f ∷ xs) ≡ some (suc k) = ap later found in
      let same : suc k ≡ i = cc in
      let (again, back) = first_slot-set file xs k a found in
      subst
        (λ i.
          (first_slot (is_file file) (set (some f ∷ xs) i (some file)) ≡ some i)
          × (set (set (some f ∷ xs) i (some file)) i none ≡ some f ∷ xs))
        same
        (
          first_slot-later (is_file file) (some f) (set xs k (some file)) out ∙ ap later again,
          ap (λ ys. some f ∷ ys) back,
        )
]

Lowest-later :
    (p : ℕ → Bool) (last : ℕ) (found : Option ℕ)
    → p 0 ≡ true
    → Lowest (λ i. p (suc i)) 0 last found
    → Lowest p 0 (suc last) (later found)
unfolding later
Lowest-later p last none first all = below
  where
    below : (j : ℕ) → 0 ≤ j → j < suc last → p j ≡ true
    below zero l h = first
    below (suc j) l h = all j (omega arith) (omega arith)
Lowest-later p last (some k) first (lo, hi, here, before) = (omega arith, omega arith, here, below)
  where
    below : (j : ℕ) → 0 ≤ j → j < suc k → p j ≡ true
    below zero l h = first
    below (suc j) l h = before j (omega arith) (omega arith)

pub first_slot-Lowest :
    (xs : List (Option ℕ)) → Lowest (in_use xs) 0 (length xs) (first_slot is_null xs)
unfolding first_slot later
first_slot-Lowest [] = λ j l h. absurd (omega arith)
first_slot-Lowest (none ∷ xs) = (omega arith, omega arith, refl, λ j l h. absurd (omega arith))
first_slot-Lowest (some f ∷ xs) =
    Lowest-later (in_use (some f ∷ xs)) (length xs) (first_slot is_null xs) refl
      (first_slot-Lowest xs)
