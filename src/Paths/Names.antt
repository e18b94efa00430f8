-- ===== src/Paths/Names.antt =====
-- The names of a path: its parts between slashes that are not empty.
use asterisk.Base.{
  ℕ, ◌+◌, ◌≤◌, ◌≡◌, ◌∙◌, refl, ap, arith, Bool-cases, inl, inr, true, false, List, [], ◌∷◌, ◌++◌,
  ◌==◌, if◌then◌else◌, length, drop,
}
use asterisk.Paths.{slash, skip_slashes, next_token}

-- A byte in front of the first part.
abbrev pub extend : ℕ → List (List ℕ) → List (List ℕ)
extend c [] = (c ∷ []) ∷ []
extend c (p ∷ ps) = (c ∷ p) ∷ ps

-- All parts between slashes, also the empty ones.
abbrev pub fields : List ℕ → List (List ℕ)
fields [] = [] ∷ []
fields (c ∷ s) = let ps = fields s in if c == slash then [] ∷ ps else extend c ps

abbrev pub not_empty : List (List ℕ) → List (List ℕ)
not_empty [] = []
not_empty ([] ∷ ps) = not_empty ps
not_empty ((c ∷ p) ∷ ps) = (c ∷ p) ∷ not_empty ps

abbrev pub names : List ℕ → List (List ℕ)
names s = not_empty (fields s)

pub names-slash : (c : ℕ) (s : List ℕ) → (c == slash) ≡ true → names (c ∷ s) ≡ names s
names-slash c s e = rw e refl

pub names-skip_slashes : (s : List ℕ) → names (skip_slashes s) ≡ names s
names-skip_slashes [] = refl
names-skip_slashes (c ∷ s) = elim (Bool-cases (c == slash)) [
  | inl e ↦ rw e (names-skip_slashes s)
  | inr e ↦ ap names (let kept : skip_slashes (c ∷ s) ≡ c ∷ s = rw e refl in kept)
]

-- The parts behind a token.
abbrev fields_after : List ℕ → List (List ℕ)
fields_after [] = []
fields_after (c ∷ s) = fields s

fields-next_token : (s : List ℕ) → fields s ≡ (next_token s).0 ∷ fields_after (next_token s).1
fields-next_token [] = refl
fields-next_token (c ∷ s) = elim (Bool-cases (c == slash)) [
  | inl e ↦ rw e refl
  | inr e ↦ rw (e, fields-next_token s) refl
]

not_empty-after : (after : List ℕ) → not_empty (fields_after after) ≡ names (drop 1 after)
not_empty-after [] = refl
not_empty-after (c ∷ s) = refl

pub names-next_token :
    (s : List ℕ) → names s ≡ not_empty ((next_token s).0 ∷ []) ++ names (drop 1 (next_token s).1)
names-next_token s =
    ap not_empty (fields-next_token s)
    ∙ (first_part (next_token s).0 (fields_after (next_token s).1)
        ∙ ap (λ ps. not_empty ((next_token s).0 ∷ []) ++ ps) (not_empty-after (next_token s).1))
  where
    first_part :
        (p : List ℕ) (ps : List (List ℕ)) → not_empty (p ∷ ps) ≡ not_empty (p ∷ []) ++ not_empty ps
    first_part [] ps = refl
    first_part (c ∷ p) ps = refl

-- A token has no slash, and is no longer than the path.
abbrev pub NoSlash : List ℕ → Type 0
NoSlash [] = true ≡ true
NoSlash (c ∷ s) = ((c == slash) ≡ false) × NoSlash s

pub next_token-NoSlash : (s : List ℕ) → NoSlash (next_token s).0
next_token-NoSlash [] = refl
next_token-NoSlash (c ∷ s) = elim (Bool-cases (c == slash)) [
  | inl e ↦ rw e refl
  | inr e ↦ rw (e, NoSlash) (e, next_token-NoSlash s)
]

pub length-next_token : (s : List ℕ) → length (next_token s).0 + length (next_token s).1 ≡ length s
length-next_token [] = omega arith
length-next_token (c ∷ s) = elim (Bool-cases (c == slash)) [
  | inl e ↦ rw e (omega arith)
  | inr e ↦ rw e (omega (arith, length-next_token s))
]

pub length-skip_slashes : (s : List ℕ) → length (skip_slashes s) ≤ length s
length-skip_slashes [] = omega arith
length-skip_slashes (c ∷ s) = elim (Bool-cases (c == slash)) [
  | inl e ↦ rw e (omega (arith, length-skip_slashes s))
  | inr e ↦ rw e (omega arith)
]
