-- ===== src/Paths/Buffer.antt =====
-- Directories, and the buffer of `fs_resolve_path` of kernel/fs.c in one.
use asterisk.Base.{
  ℕ, suc, ◌+◌, ◌≤◌, ◌<◌, ◌≡◌, ◌∙◌, sym, refl, ap, arith, Bool, true, false, ◌&&◌, List, [], ◌∷◌,
  ◌++◌, append_assoc, append-nil, ltb, lt→ltb, ◌==◌, if◌then◌else◌, length, drop,
}
use asterisk.Paths.{slash, onto, is_up, is_here, go_back, go_up, strip_slash}
use asterisk.Paths.Names.{NoSlash}

-- A directory is the list of the names that lead to it, the innermost first.
abbrev pub enter : List (List ℕ) → List ℕ → List (List ℕ)
enter dir name = if is_up name then drop 1 dir else if is_here name then dir else name ∷ dir

abbrev pub follow : List (List ℕ) → List (List ℕ) → List (List ℕ)
follow dir [] = dir
follow dir (name ∷ rest) = follow (enter dir name) rest

-- Its path
abbrev pub joined : List (List ℕ) → List ℕ
joined [] = []
joined (name ∷ dir) = joined dir ++ (slash ∷ name)

abbrev pub absolute : List (List ℕ) → List ℕ
absolute [] = slash ∷ []
absolute (name ∷ dir) = joined (name ∷ dir)

abbrev pub Clean : List (List ℕ) → Type 0
Clean [] = true ≡ true
Clean (name ∷ dir) = NoSlash name × (0 < length name) × Clean dir

-- The buffer while the loop is in a directory, and when it has ended there.
abbrev pub inside : List (List ℕ) → List ℕ
inside [] = slash ∷ []
inside (name ∷ dir) = slash ∷ onto name (inside dir)

abbrev pub ended : List (List ℕ) → List ℕ
ended [] = slash ∷ []
ended (name ∷ dir) = onto name (inside dir)

pub length-onto : (s out : List ℕ) → length (onto s out) ≡ length s + length out
length-onto [] out = omega arith
length-onto (c ∷ s) out = omega (arith, length-onto s (c ∷ out))

onto-onto : (s out r : List ℕ) → onto (onto s out) r ≡ onto out (s ++ r)
onto-onto [] out r = refl
onto-onto (c ∷ s) out r = onto-onto s (c ∷ out) r

onto-inside : (dir : List (List ℕ)) (r : List ℕ) → onto (inside dir) r ≡ joined dir ++ (slash ∷ r)
onto-inside [] r = refl
onto-inside (name ∷ dir) r =
    onto-onto name (inside dir) (slash ∷ r)
    ∙ (onto-inside dir (name ++ (slash ∷ r))
        ∙ sym (append_assoc (joined dir) (slash ∷ name) (slash ∷ r)))

pub onto-ended : (dir : List (List ℕ)) → onto (ended dir) [] ≡ absolute dir
onto-ended [] = refl
onto-ended (name ∷ dir) =
    onto-onto name (inside dir) []
    ∙ (onto-inside dir (name ++ []) ∙ ap (λ n. joined dir ++ (slash ∷ n)) (append-nil name))

go_back-onto : (name out : List ℕ) → NoSlash name → go_back (onto name out) ≡ go_back out
go_back-onto [] out ok = refl
go_back-onto (c ∷ name) out (here, ok) = go_back-onto name (c ∷ out) ok ∙ (rw here refl)

go_back-inside : (dir : List (List ℕ)) → go_back (inside dir) ≡ inside dir
go_back-inside [] = refl
go_back-inside (name ∷ dir) = refl

go_up-cons : (c : ℕ) (out : List ℕ) → 0 < length out → go_up (c ∷ out) ≡ go_back out
go_up-cons c [] h = absurd (omega arith)
go_up-cons c (d ∷ out) h = refl

pub go_up-inside : (dir : List (List ℕ)) → Clean dir → go_up (inside dir) ≡ inside (drop 1 dir)
go_up-inside [] ok = refl
go_up-inside (name ∷ dir) (ok, some_bytes, rest) =
    go_up-cons slash (onto name (inside dir)) (omega (arith, length-onto name (inside dir)))
    ∙ (go_back-onto name (inside dir) ok ∙ go_back-inside dir)

pub length-inside_drop : (dir : List (List ℕ)) → length (inside (drop 1 dir)) ≤ length (inside dir)
length-inside_drop [] = omega arith
length-inside_drop (name ∷ dir) = omega (arith, length-onto name (inside dir))

pub strip_slash-onto :
    (name out : List ℕ)
    → NoSlash name
    → 0 < length name
    → strip_slash (onto name out) ≡ onto name out
strip_slash-onto [] out ok h = absurd (omega arith)
strip_slash-onto (c ∷ []) out (here, ok) h = no_slash (ltb 2 (length (c ∷ out))) here
  where
    no_slash :
        (b : Bool) → (c == slash) ≡ false → (if b && c == slash then out else c ∷ out) ≡ c ∷ out
    no_slash true e = rw e refl
    no_slash false e = refl
strip_slash-onto (c ∷ d ∷ name) out (here, ok) h =
    strip_slash-onto (d ∷ name) (c ∷ out) ok (omega arith)

pub inside-nonempty : (dir : List (List ℕ)) → 0 < length (inside dir)
inside-nonempty [] = omega arith
inside-nonempty (name ∷ dir) = omega arith

pub strip_slash-inside : (dir : List (List ℕ)) → Clean dir → strip_slash (inside dir) ≡ ended dir
strip_slash-inside [] ok = refl
strip_slash-inside (name ∷ dir) (ok, some_bytes, rest) =
    let long : ltb 2 (length (slash ∷ onto name (inside dir))) ≡ true =
      lt→ltb 2 (suc (length (onto name (inside dir))))
        (omega (arith, length-onto name (inside dir), inside-nonempty dir)) in
    rw long refl

pub Clean-drop : (dir : List (List ℕ)) → Clean dir → Clean (drop 1 dir)
Clean-drop [] ok = refl
Clean-drop (name ∷ dir) (ok, h, rest) = rest
