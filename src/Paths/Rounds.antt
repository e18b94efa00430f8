-- ===== src/Paths/Rounds.antt =====
-- The rounds of the loop of `fs_resolve_path` of kernel/fs.c.
use asterisk.Base.{
  ℕ, suc, ◌+◌, ◌≤◌, ◌≡◌, ◌∙◌, sym, refl, ap, arith, Bool, Bool-cases, inl, inr, true, false, ◌&&◌,
  List, [], ◌∷◌, ◌++◌, Option, none, some, ltb, ◌==◌, length, drop, length-drop,
}
use asterisk.Paths.{
  slash, dot, skip_slashes, next_token, is_up, is_here, go_up, put_token, resolve_loop,
}
use asterisk.Paths.Names.{
  names, not_empty, NoSlash, names-slash, names-skip_slashes, names-next_token, next_token-NoSlash,
  length-next_token, length-skip_slashes,
}

-- The test of a name on the path from it on is one on the name.
pub is_up-next_token : (s : List ℕ) → is_up (next_token s).0 ≡ is_up s
is_up-next_token [] = refl
is_up-next_token (a ∷ []) = elim (Bool-cases (a == slash)) [ inl e ↦ rw e refl | inr e ↦ rw e refl ]
is_up-next_token (a ∷ b ∷ s) = elim (Bool-cases (a == slash)) [
  | inl e ↦ (let no : (a == dot) ≡ false = ground arith in rw (e, no) refl)
  | inr e ↦ elim (Bool-cases (b == slash)) [
    | inl f ↦
        (let no : (b == dot) ≡ false = ground arith in rw (e, f) (neither (a == dot) (b == dot) no))
    | inr f ↦ rw (e, f) refl
  ]
]
  where
    neither : (x y : Bool) → y ≡ false → false ≡ (x && y)
    neither x y e = ground arith

pub is_here-next_token : (s : List ℕ) → is_here (next_token s).0 ≡ is_here s
is_here-next_token [] = refl
is_here-next_token (a ∷ s) = elim (Bool-cases (a == slash)) [
  | inl e ↦ (let no : (a == dot) ≡ false = ground arith in rw (e, no) refl)
  | inr e ↦ rw e refl
]

pub no_token : (s : List ℕ) → ltb 0 (length (next_token (skip_slashes s)).0) ≡ false → names s ≡ []
no_token [] h = refl
no_token (c ∷ s) h = elim (Bool-cases (c == slash)) [
  | inl e ↦ names-slash c s e ∙ no_token s (sym (rw e refl) ∙ h)
  | inr e ↦
      let kept : skip_slashes (c ∷ s) ≡ c ∷ s = rw e refl in
      let starts : (next_token (c ∷ s)).0 ≡ c ∷ (next_token s).0 = rw e refl in
      let h' : ltb 0 (suc (length (next_token s).0)) ≡ false =
        sym (ap (λ t. ltb 0 (length (next_token t).0)) kept ∙ ap (λ t. ltb 0 (length t)) starts)
        ∙ h in
      absurd (ground arith)
]

-- The rounds of the loop, by the token at the start of `rest`.
module _ (fuel size c : ℕ) (rest out : List ℕ) where
  abbrev pub current : List ℕ
  current = skip_slashes (c ∷ rest)

  abbrev pub tok : List ℕ
  tok = (next_token current).0

  abbrev pub after : List ℕ
  after = (next_token current).1

  abbrev pub round : Option (List ℕ)
  round = resolve_loop (suc fuel) size (c ∷ rest) out

  pub round_end : ltb 0 (length tok) ≡ false → round ≡ some out
  unfolding resolve_loop
  round_end e = rw (e, resolve_loop) refl

  pub round_up :
      ltb 0 (length tok) ≡ true
      → is_up current ≡ true
      → round ≡ resolve_loop fuel size (drop 1 after) (go_up out)
  unfolding resolve_loop
  round_up e u = rw (e, resolve_loop, u) refl

  pub round_here :
      ltb 0 (length tok) ≡ true
      → is_up current ≡ false
      → is_here current ≡ true
      → round ≡ resolve_loop fuel size (drop 1 after) out
  unfolding resolve_loop
  round_here e u h = rw (e, resolve_loop, u, h) refl

  pub round_full :
      ltb 0 (length tok) ≡ true
      → is_up current ≡ false
      → is_here current ≡ false
      → ltb size (length out + length tok + 2) ≡ true
      → round ≡ none
  unfolding resolve_loop
  round_full e u h f = rw (e, resolve_loop, u, h, f) refl

  pub round_put :
      ltb 0 (length tok) ≡ true
      → is_up current ≡ false
      → is_here current ≡ false
      → ltb size (length out + length tok + 2) ≡ false
      → round ≡ resolve_loop fuel size (drop 1 after) (put_token tok after out)
  unfolding resolve_loop
  round_put e u h f = rw (e, resolve_loop, u, h, f) refl

  pub tok-NoSlash : NoSlash tok
  tok-NoSlash = next_token-NoSlash current

  -- What is left behind a token is shorter.
  pub shorter : ltb 0 (length tok) ≡ true → length tok + length (drop 1 after) ≤ length rest + 1
  shorter e =
      omega (arith, length-drop 1 after, length-next_token current, length-skip_slashes (c ∷ rest))

  pub shorter_after :
      (c' : ℕ) (after' : List ℕ)
      → after ≡ c' ∷ after'
      → length tok + length (drop 1 after) ≤ length rest
  shorter_after c' after' e =
      let n : length after ≡ suc (length after') = ap length e in
      omega
        (arith, n, length-drop 1 after, length-next_token current, length-skip_slashes (c ∷ rest))

  pub names_rest : ltb 0 (length tok) ≡ true → names (c ∷ rest) ≡ tok ∷ names (drop 1 after)
  names_rest e =
      sym (names-skip_slashes (c ∷ rest))
      ∙ (names-next_token current ∙ one_name tok (names (drop 1 after)) e)
    where
      one_name :
          (t : List ℕ) (ns : List (List ℕ))
          → ltb 0 (length t) ≡ true
          → not_empty (t ∷ []) ++ ns ≡ t ∷ ns
      one_name [] ns h = absurd (ground arith)
      one_name (x ∷ t) ns h = refl
