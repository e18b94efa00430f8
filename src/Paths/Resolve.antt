-- ===== src/Paths/Resolve.antt =====
-- What `fs_resolve_path` of kernel/fs.c makes of a path.
use asterisk.Base.{
  ℕ, zero, suc, ◌+◌, ◌≤◌, ◌<◌, ◌≡◌, ◌∙◌, sym, refl, ap, arith, subst, Bool, Bool-cases, inl, inr,
  ◌⊎◌, true, false, ◌&&◌, ◌||◌, List, [], ◌∷◌, Option, none, some, ltb, ltb→lt, le→ltb, ◌==◌,
  if◌then◌else◌, if_both, length, drop,
}
use asterisk.Paths.{
  slash, dot, onto, skip_slashes, is_up, is_here, put_token, resolve_loop, strip_slash,
  fs_resolve_path,
}
use asterisk.Paths.Names.{fields, names, not_empty, NoSlash}
use asterisk.Paths.Rounds.{
  tok, after, round, round_end, round_up, round_here, round_full, round_put, tok-NoSlash, shorter,
  shorter_after, names_rest, is_up-next_token, is_here-next_token, no_token,
}
use asterisk.Paths.Buffer.{
  enter, follow, absolute, Clean, inside, ended, onto-ended, go_up-inside, length-inside_drop,
  length-onto, strip_slash-onto, strip_slash-inside, Clean-drop,
}

resolve_loop-nil : (fuel size : ℕ) (out : List ℕ) → resolve_loop fuel size [] out ≡ some out
unfolding resolve_loop
resolve_loop-nil zero size out = refl
resolve_loop-nil (suc fuel) size out = refl

-- The loop leaves the path of a directory, or the buffer is smaller than the bound.
abbrev Resolved : (size bound : ℕ) (path : List ℕ) → Option (List ℕ) → Type 0
Resolved size bound path none = size < bound
Resolved size bound path (some out) = strip_slash out ≡ path

Resolved-weaken :
    (size b b' : ℕ) (path : List ℕ) (r : Option (List ℕ))
    → b ≤ b'
    → Resolved size b path r
    → Resolved size b' path r
Resolved-weaken size b b' path none le h = omega (arith, le, h)
Resolved-weaken size b b' path (some out) le h = h

enter_up : (dir : List (List ℕ)) (t : List ℕ) → is_up t ≡ true → enter dir t ≡ drop 1 dir
enter_up dir t e = rw e refl

enter_here :
    (dir : List (List ℕ)) (t : List ℕ) → is_up t ≡ false → is_here t ≡ true → enter dir t ≡ dir
enter_here dir t e f = rw (e, f) refl

enter_name :
    (dir : List (List ℕ)) (t : List ℕ) → is_up t ≡ false → is_here t ≡ false → enter dir t ≡ t ∷ dir
enter_name dir t e f = rw (e, f) refl

List-cases : (xs : List ℕ) → (xs ≡ []) ⊎ ((x : ℕ) × (rest : List ℕ) × (xs ≡ x ∷ rest))
List-cases [] = inl refl
List-cases (x ∷ rest) = inr (x, rest, refl)

-- What is shown of the loop, for an amount of fuel.
abbrev Loops : (fuel size : ℕ) → Type 0
Loops fuel size =
    (rest : List ℕ) (dir : List (List ℕ))
    → length rest ≤ fuel
    → Clean dir
    → Resolved size (length (inside dir) + length rest + 2) (ended (follow dir (names rest)))
        (resolve_loop fuel size rest (inside dir))

module _ (fuel size c : ℕ) (rest : List ℕ) (dir : List (List ℕ)) (enough : length rest ≤ fuel)
    (clean : Clean dir) (ih : Loops fuel size) where
  abbrev t : List ℕ
  t = tok fuel size c rest (inside dir)

  abbrev behind : List ℕ
  behind = after fuel size c rest (inside dir)

  abbrev Goal : Option (List ℕ) → Type 0
  Goal =
      Resolved size (length (inside dir) + suc (length rest) + 2)
        (ended (follow dir (names (c ∷ rest))))

  -- The loop goes on in a directory that is no longer.
  goes_on :
      (dir' : List (List ℕ))
      → ltb 0 (length t) ≡ true
      → enter dir t ≡ dir'
      → Clean dir'
      → length (inside dir') + length (drop 1 behind) ≤ length (inside dir) + suc (length rest)
      → length (drop 1 behind) ≤ length rest
      → Goal (resolve_loop fuel size (drop 1 behind) (inside dir'))
  goes_on dir' e entered clean' le shorter_rest =
      let reached : follow dir' (names (drop 1 behind)) ≡ follow dir (names (c ∷ rest)) = sym (
        ap (follow dir) (names_rest fuel size c rest (inside dir) e)
        ∙ ap (λ d. follow d (names (drop 1 behind))) entered) in
      subst
        (λ d.
          Resolved size (length (inside dir) + suc (length rest) + 2) (ended d)
            (resolve_loop fuel size (drop 1 behind) (inside dir')))
        reached
        (Resolved-weaken size (length (inside dir') + length (drop 1 behind) + 2)
          (length (inside dir) + suc (length rest) + 2) _ _ (omega (arith, le))
          (ih (drop 1 behind) dir' (omega (arith, shorter_rest, enough)) clean'))

  after_end : ltb 0 (length t) ≡ false → Goal (round fuel size c rest (inside dir))
  after_end e = subst Goal (sym (round_end fuel size c rest (inside dir) e)) (
      strip_slash-inside dir clean ∙ ap (λ ns. ended (follow dir ns)) (sym (no_token (c ∷ rest) e)))

  module _ (e : ltb 0 (length t) ≡ true) where
    short : length t + length (drop 1 behind) ≤ length rest + 1
    short = shorter fuel size c rest (inside dir) e

    some_byte : 0 < length t
    some_byte = ltb→lt 0 (length t) e

    after_up : is_up (skip_slashes (c ∷ rest)) ≡ true → Goal (round fuel size c rest (inside dir))
    after_up u =
        subst Goal
          (sym (
            round_up fuel size c rest (inside dir) e u
            ∙ ap (resolve_loop fuel size (drop 1 behind)) (go_up-inside dir clean)))
          (goes_on (drop 1 dir) e (enter_up dir t (is_up-next_token (skip_slashes (c ∷ rest)) ∙ u))
            (Clean-drop dir clean) (omega (arith, length-inside_drop dir, short, some_byte))
            (omega (arith, short, some_byte)))

    module _ (u : is_up (skip_slashes (c ∷ rest)) ≡ false) where
      after_here :
          is_here (skip_slashes (c ∷ rest)) ≡ true → Goal (round fuel size c rest (inside dir))
      after_here h = subst Goal (sym (round_here fuel size c rest (inside dir) e u h)) (
          goes_on dir e
            (enter_here dir t (is_up-next_token (skip_slashes (c ∷ rest)) ∙ u)
              (is_here-next_token (skip_slashes (c ∷ rest)) ∙ h))
            clean (omega (arith, short, some_byte)) (omega (arith, short, some_byte)))

      module _ (h : is_here (skip_slashes (c ∷ rest)) ≡ false) where
        entered : enter dir t ≡ t ∷ dir
        entered =
            enter_name dir t (is_up-next_token (skip_slashes (c ∷ rest)) ∙ u)
              (is_here-next_token (skip_slashes (c ∷ rest)) ∙ h)

        tidy_t : Clean (t ∷ dir)
        tidy_t = (tok-NoSlash fuel size c rest (inside dir), some_byte, clean)

        put_then :
            (a : List ℕ)
            → behind ≡ a
            → Goal (resolve_loop fuel size (drop 1 a) (put_token t a (inside dir)))
        put_then [] at =
            let none_left : names (drop 1 behind) ≡ [] = ap (λ a. names (drop 1 a)) at in
            let reached : follow dir (names (c ∷ rest)) ≡ t ∷ dir =
              ap (follow dir) (names_rest fuel size c rest (inside dir) e)
              ∙ (ap (follow (enter dir t)) none_left ∙ entered) in
            subst Goal (sym (resolve_loop-nil fuel size (onto t (inside dir)))) (
              strip_slash-onto t (inside dir) (tok-NoSlash fuel size c rest (inside dir)) some_byte
              ∙ ap ended (sym reached))
        put_then (x ∷ a) at =
            let shorter' = shorter_after fuel size c rest (inside dir) x a at in
            subst (λ b. Goal (resolve_loop fuel size (drop 1 b) (inside (t ∷ dir)))) at
              (goes_on (t ∷ dir) e entered tidy_t
                (omega (arith, shorter', length-onto t (inside dir))) (omega (arith, shorter')))

        after_name : Goal (round fuel size c rest (inside dir))
        after_name = elim (Bool-cases (ltb size (length (inside dir) + length t + 2))) [
          | inl f ↦
              subst Goal (sym (round_full fuel size c rest (inside dir) e u h f))
                (omega (arith, ltb→lt size (length (inside dir) + length t + 2) f, short))
          | inr f ↦
              subst Goal (sym (round_put fuel size c rest (inside dir) e u h f))
                (put_then behind refl)
        ]

resolve_loop-Resolved : (fuel size : ℕ) → Loops fuel size
resolve_loop-Resolved fuel size [] dir enough clean =
    subst (Resolved size (length (inside dir) + 0 + 2) (ended dir))
      (sym (resolve_loop-nil fuel size (inside dir))) (strip_slash-inside dir clean)
resolve_loop-Resolved zero size (c ∷ rest) dir enough clean = absurd (omega arith)
resolve_loop-Resolved (suc fuel) size (c ∷ rest) dir enough clean =
    let ih = resolve_loop-Resolved fuel size in
    let fits : length rest ≤ fuel = omega (arith, enough) in
    elim (Bool-cases (ltb 0 (length (t fuel size c rest dir fits clean ih)))) [
      | inr e ↦ after_end fuel size c rest dir fits clean ih e
      | inl e ↦ elim (Bool-cases (is_up (skip_slashes (c ∷ rest)))) [
        | inl u ↦ after_up fuel size c rest dir fits clean ih e u
        | inr u ↦ elim (Bool-cases (is_here (skip_slashes (c ∷ rest)))) [
          | inl h ↦ after_here fuel size c rest dir fits clean ih e u h
          | inr h ↦ after_name fuel size c rest dir fits clean ih e u h
        ]
      ]
    ]

-- The names "." and "..", and what they mean.
abbrev pub is_self : List ℕ → Bool
is_self [] = false
is_self (a ∷ []) = a == dot
is_self (a ∷ b ∷ s) = false

abbrev pub is_parent : List ℕ → Bool
is_parent [] = false
is_parent (a ∷ []) = false
is_parent (a ∷ b ∷ []) = a == dot && b == dot
is_parent (a ∷ b ∷ c ∷ s) = false

abbrev pub walk : List (List ℕ) → List (List ℕ) → List (List ℕ)
walk dir [] = dir
walk dir (name ∷ rest) =
    walk (if is_parent name then drop 1 dir else if is_self name then dir else name ∷ dir) rest

-- A name that begins with a dot is one of these.
abbrev pub Ordinary : List (List ℕ) → Type 0
Ordinary [] = true ≡ true
Ordinary (name ∷ rest) =
    (is_here name ≡ true → (is_self name || is_parent name) ≡ true) × Ordinary rest

enter-Ordinary :
    (dir : List (List ℕ)) (name : List ℕ)
    → (is_here name ≡ true → (is_self name || is_parent name) ≡ true)
    → enter dir name
      ≡ (if is_parent name then drop 1 dir else if is_self name then dir else name ∷ dir)
enter-Ordinary dir [] h = refl
enter-Ordinary dir (a ∷ []) h = refl
enter-Ordinary dir (a ∷ b ∷ []) h = ground arith
enter-Ordinary dir (a ∷ b ∷ c ∷ s) h = ground arith

follow-walk : (ns dir : List (List ℕ)) → Ordinary ns → follow dir ns ≡ walk dir ns
follow-walk [] dir ok = refl
follow-walk (name ∷ ns) dir (here, ok) =
    ap (λ d. follow d ns) (enter-Ordinary dir name here) ∙ follow-walk ns _ ok

-- The path of a directory in the buffer, or too small a buffer.
abbrev pub Resolves : (size length_path : ℕ) (dir : List (List ℕ)) → Option (List ℕ) → Type 0
Resolves size length_path dir none = size < length_path + 2
Resolves size length_path dir (some s) = s ≡ absolute dir

fs_resolve_path-follow :
    (path : List ℕ) (size : ℕ)
    → 2 ≤ size
    → Resolves size
        (length (slash ∷ path))
        (follow [] (names path))
        (fs_resolve_path (slash ∷ path) size)
unfolding fs_resolve_path
fs_resolve_path-follow path size fits =
    let small : ltb size 2 ≡ false = le→ltb size 2 fits in
    let loop = resolve_loop-Resolved (length path) size path [] (omega arith) refl in
    rw (small, fs_resolve_path) (strips (resolve_loop (length path) size path (slash ∷ [])) loop)
  where
    strips :
        (r : Option (List ℕ))
        → Resolved size (1 + length path + 2) (ended (follow [] (names path))) r
        → Resolves size
            (length (slash ∷ path))
            (follow [] (names path))
            (elim r [ none ↦ none | some out ↦ some (onto (strip_slash out) []) ])
    strips none h = omega (arith, h)
    strips (some out) e = ap (λ o. onto o []) e ∙ onto-ended (follow [] (names path))

-- With a buffer of at least two bytes, an absolute path in which only the names "." and ".." begin
-- with a dot is resolved to the path of the directory that its names lead to, and refused only if
-- the buffer is shorter than the path and two bytes.
pub fs_resolve_path-Resolves :
    (path : List ℕ) (size : ℕ)
    → 2 ≤ size
    → Ordinary (names path)
    → Resolves size
        (length (slash ∷ path))
        (walk [] (names path))
        (fs_resolve_path (slash ∷ path) size)
fs_resolve_path-Resolves path size fits ok =
    subst (λ d. Resolves size (length (slash ∷ path)) d (fs_resolve_path (slash ∷ path) size))
      (follow-walk (names path) [] ok) (fs_resolve_path-follow path size fits)

fields-NoSlash : (s : List ℕ) → NoSlash s → fields s ≡ s ∷ []
fields-NoSlash [] ok = refl
fields-NoSlash (c ∷ s) (here, ok) = rw (here, fields-NoSlash s ok) refl

-- With room for it, the path of any file in the root whose name begins with a dot is resolved to
-- the root.
pub fs_resolve_path-hidden :
    (name : List ℕ) (size : ℕ)
    → NoSlash (dot ∷ name)
    → length name + 5 ≤ size
    → fs_resolve_path (slash ∷ dot ∷ name) size ≡ some (slash ∷ [])
fs_resolve_path-hidden name size ok fits = resolved (fs_resolve_path (slash ∷ dot ∷ name) size) (
    subst
      (λ ns.
        Resolves size (length (slash ∷ dot ∷ name)) (follow [] ns)
          (fs_resolve_path (slash ∷ dot ∷ name) size))
      only (fs_resolve_path-follow (dot ∷ name) size (omega (arith, fits))))
  where
    only : names (dot ∷ name) ≡ (dot ∷ name) ∷ []
    only = ap not_empty (fields-NoSlash (dot ∷ name) ok)

    root : enter [] (dot ∷ name) ≡ []
    root = if_both (λ d. d ≡ []) (is_up (dot ∷ name)) refl refl

    resolved :
        (r : Option (List ℕ))
        → Resolves size (length (slash ∷ dot ∷ name)) (follow [] ((dot ∷ name) ∷ [])) r
        → r ≡ some (slash ∷ [])
    resolved none h = absurd (omega (arith, h, fits))
    resolved (some s) e = ap some (e ∙ ap absolute root)
