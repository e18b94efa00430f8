-- ===== src/Paths/Lookup/Found.antt =====
-- The search of `fs_get_node` follows the names of the path.
use asterisk.Base.{
  ℕ, zero, suc, ◌≤◌, ◌<◌, ◌≡◌, ◌∙◌, inl, inr, sym, refl, ap, arith, Bool-cases, Option-cases, true,
  false, ◌&&◌, List, [], ◌∷◌, ◌++◌, append_assoc, append-nil, length-append, Option, none, some,
  ltb, lt→ltb, ◌==◌, if◌then◌else◌, if_both, if_each, length, drop,
}
use asterisk.Paths.{slash, next_token, fs_resolve_path}
use asterisk.Paths.Names.{fields, extend, not_empty, names, NoSlash}
use asterisk.Paths.Buffer.{Clean, Clean-drop, joined, absolute}
use asterisk.Paths.Resolve.{is_self, is_parent, walk, Ordinary, Resolves, fs_resolve_path-Resolves}
use asterisk.Paths.Lookup.{Lookup, found, missing, overruns, find_loop, fs_get_node}

-- Downwards by one name after the other; a name of 64 bytes or more overruns the buffer.
abbrev pub descend : (finddir : ℕ → List ℕ → Option ℕ) → ℕ → List (List ℕ) → Lookup
descend finddir node [] = found node
descend finddir node (name ∷ rest) = elim (ltb (length name) 64) [
  | true ↦ elim (finddir node name) [ none ↦ missing | some next ↦ descend finddir next rest ]
  | false ↦ overruns
]

abbrev pub outermost_first : List (List ℕ) → List (List ℕ) → List (List ℕ)
outermost_first [] acc = acc
outermost_first (name ∷ dir) acc = outermost_first dir (name ∷ acc)

-- The names with a slash before each, and without the first slash.
abbrev slashed : List (List ℕ) → List ℕ
slashed [] = []
slashed (name ∷ rest) = slash ∷ (name ++ slashed rest)

abbrev AllNoSlash : List (List ℕ) → Type 0
AllNoSlash [] = true ≡ true
AllNoSlash (p ∷ ps) = NoSlash p × AllNoSlash ps

extend-AllNoSlash :
    (c : ℕ) (ps : List (List ℕ)) → (c == slash) ≡ false → AllNoSlash ps → AllNoSlash (extend c ps)
extend-AllNoSlash c [] e ok = ((e, refl), refl)
extend-AllNoSlash c (p ∷ ps) e (ok, rest) = ((e, ok), rest)

fields-AllNoSlash : (s : List ℕ) → AllNoSlash (fields s)
fields-AllNoSlash [] = (refl, refl)
fields-AllNoSlash (c ∷ s) =
    if_each AllNoSlash (c == slash) {x = [] ∷ fields s} {y = extend c (fields s)}
      (λ e. (refl, fields-AllNoSlash s))
      (λ e. extend-AllNoSlash c (fields s) e (fields-AllNoSlash s))

not_empty-Clean : (ps : List (List ℕ)) → AllNoSlash ps → Clean (not_empty ps)
not_empty-Clean [] ok = refl
not_empty-Clean ([] ∷ ps) (ok, rest) = not_empty-Clean ps rest
not_empty-Clean ((c ∷ p) ∷ ps) (ok, rest) = (ok, omega arith, not_empty-Clean ps rest)

walk-Clean : (ns dir : List (List ℕ)) → Clean dir → Clean ns → Clean (walk dir ns)
walk-Clean [] dir clean ok = clean
walk-Clean (name ∷ ns) dir clean (no_slash, some_byte, ok) =
    let kept =
      if_both Clean (is_self name) {x = dir} {y = name ∷ dir} clean (no_slash, some_byte, clean) in
    walk-Clean ns _ (if_both Clean (is_parent name) {x = drop 1 dir} (Clean-drop dir clean) kept) ok

outermost_first-Clean :
    (dir acc : List (List ℕ)) → Clean dir → Clean acc → Clean (outermost_first dir acc)
outermost_first-Clean [] acc d a = a
outermost_first-Clean (name ∷ dir) acc (ok, some_byte, rest) a =
    outermost_first-Clean dir (name ∷ acc) rest (ok, some_byte, a)

joined-outermost_first :
    (dir acc : List (List ℕ)) → joined dir ++ slashed acc ≡ slashed (outermost_first dir acc)
joined-outermost_first [] acc = refl
joined-outermost_first (name ∷ dir) acc =
    append_assoc (joined dir) (slash ∷ name) (slashed acc) ∙ joined-outermost_first dir (name ∷ acc)

-- A name is the next token of the path that it begins.
next_token-end : (name : List ℕ) → NoSlash name → next_token name ≡ (name, [])
next_token-end [] ok = refl
next_token-end (c ∷ name) (here, ok) = rw (here, next_token-end name ok) refl

next_token-name :
    (name rest : List ℕ) → NoSlash name → next_token (name ++ (slash ∷ rest)) ≡ (name, slash ∷ rest)
next_token-name [] rest ok = refl
next_token-name (c ∷ name) rest (here, ok) = rw (here, next_token-name name rest ok) refl

next_token-slashed :
    (name : List ℕ) (ns : List (List ℕ))
    → NoSlash name
    → next_token (name ++ slashed ns) ≡ (name, slashed ns)
next_token-slashed name [] ok = ap next_token (append-nil name) ∙ next_token-end name ok
next_token-slashed name (n ∷ ns) ok = next_token-name name (n ++ slashed ns) ok

module _ (finddir : ℕ → List ℕ → Option ℕ) where
  -- What the loop does once it has the token.
  abbrev after_token : (fuel node : ℕ) → List ℕ × List ℕ → Lookup
  after_token fuel node (name, after) = elim (length name == 0 && ltb 0 (length after)) [
    | true ↦ find_loop finddir fuel (drop 1 after) node
    | false ↦ elim (ltb (length name) 64 && ltb 0 (length name)) [
      | false ↦ overruns
      | true ↦ elim (finddir node name) [
        | none ↦ missing
        | some next ↦ elim (ltb 0 (length after)) [
          | true ↦ find_loop finddir fuel (drop 1 after) next
          | false ↦ found next
        ]
      ]
    ]
  ]

  find_loop-token :
      (fuel node : ℕ) (input : List ℕ)
      → find_loop finddir (suc fuel) input node ≡ after_token fuel node (next_token input)
  unfolding find_loop
  find_loop-token fuel node input = refl

  -- The loop behind a slash, if there is one.
  abbrev Goes : (fuel : ℕ) → List (List ℕ) → Type 0
  Goes fuel [] = true ≡ true
  Goes fuel (n ∷ rest) =
      (next : ℕ) → find_loop finddir fuel (n ++ slashed rest) next ≡ descend finddir next (n ∷ rest)

  onward :
      (fuel next : ℕ) (ns : List (List ℕ))
      → Goes fuel ns
      → (elim (ltb 0 (length (slashed ns))) [
        | true ↦ find_loop finddir fuel (drop 1 (slashed ns)) next
        | false ↦ found next
      ])
        ≡ descend finddir next ns
  onward fuel next [] ih = refl
  onward fuel next (n ∷ ns) ih =
      let more : ltb 0 (suc (length (n ++ slashed ns))) ≡ true =
        lt→ltb 0 (suc (length (n ++ slashed ns))) (omega arith) in
      rw more (ih next)

  after_token-descend :
      (fuel node : ℕ) (name : List ℕ) (ns : List (List ℕ))
      → 0 < length name
      → Goes fuel ns
      → after_token fuel node (name, slashed ns) ≡ descend finddir node (name ∷ ns)
  after_token-descend fuel node name ns some_byte ih =
      let not_zero : (length name == 0) ≡ false = ground arith in
      let not_short = lt→ltb 0 (length name) some_byte in
      elim (Bool-cases (ltb (length name) 64)) [
        | inr long ↦ rw (not_zero, after_token, long, descend) refl
        | inl fits ↦ elim (Option-cases (finddir node name)) [
          | inl e ↦ rw (not_zero, after_token, fits, not_short, e, descend) refl
          | inr (next, e) ↦
              rw (not_zero, after_token, fits, not_short, e, descend) (onward fuel next ns ih)
        ]
      ]

  find_loop-descend :
      (fuel node : ℕ) (name : List ℕ) (ns : List (List ℕ))
      → Clean (name ∷ ns)
      → length (name ++ slashed ns) ≤ fuel
      → find_loop finddir fuel (name ++ slashed ns) node ≡ descend finddir node (name ∷ ns)
  find_loop-descend zero node name ns (ok, some_byte, rest) enough =
      absurd (omega (arith, length-append name (slashed ns), some_byte, enough))
  find_loop-descend (suc fuel) node name [] (ok, some_byte, rest) enough =
      find_loop-token fuel node (name ++ [])
      ∙ (ap (after_token fuel node) (next_token-slashed name [] ok)
          ∙ after_token-descend fuel node name [] some_byte refl)
  find_loop-descend (suc fuel) node name (n ∷ ns) (ok, some_byte, rest) enough =
      let fits : length (n ++ slashed ns) ≤ fuel =
        omega (arith, length-append name (slash ∷ (n ++ slashed ns)), enough) in
      find_loop-token fuel node (name ++ slashed (n ∷ ns))
      ∙ (ap (after_token fuel node) (next_token-slashed name (n ∷ ns) ok)
          ∙ after_token-descend fuel node name (n ∷ ns) some_byte
              (λ next. find_loop-descend fuel next n ns rest fits))

  abbrev from_path : ℕ → List ℕ → Lookup
  from_path root real_path =
      if length real_path == 0
      then missing
      else if length real_path == 1
      then found root
      else find_loop finddir (length real_path) (drop 1 real_path) root

  from_path-slashed :
      (root : ℕ) (ns : List (List ℕ))
      → Clean ns
      → 0 < length (slashed ns)
      → from_path root (slashed ns) ≡ descend finddir root ns
  from_path-slashed root [] clean h = absurd (omega arith)
  from_path-slashed root (n ∷ ns) (ok, some_byte, rest) h =
      let l = length-append n (slashed ns) in
      let not_zero : (suc (length (n ++ slashed ns)) == 0) ≡ false = ground arith in
      let not_one : (suc (length (n ++ slashed ns)) == 1) ≡ false = ground (arith, l) in
      rw (not_zero, from_path, not_one)
        (find_loop-descend (suc (length (n ++ slashed ns))) root n ns (ok, some_byte, rest)
          (omega arith))

  from_path-absolute :
      (root : ℕ) (dir : List (List ℕ))
      → Clean dir
      → from_path root (absolute dir) ≡ descend finddir root (outermost_first dir [])
  from_path-absolute root [] clean = refl
  from_path-absolute root (name ∷ dir) clean =
      let text : joined (name ∷ dir) ≡ slashed (outermost_first (name ∷ dir) []) =
        sym (append-nil (joined (name ∷ dir))) ∙ joined-outermost_first (name ∷ dir) [] in
      let some_bytes : 0 < length (slashed (outermost_first (name ∷ dir) [])) =
        omega (arith, ap length text, length-append (joined dir) (slash ∷ name)) in
      ap (from_path root) text
      ∙ from_path-slashed root (outermost_first (name ∷ dir) [])
          (outermost_first-Clean (name ∷ dir) [] clean refl) some_bytes

  -- For an absolute path of at most 254 bytes in which only "." and ".." begin with a dot, the
  -- search goes down from the root by the names that the path leads to, and a name of 64 bytes or
  -- more that it comes to overruns the buffer for a name.
  pub fs_get_node-descend :
      (root : ℕ) (path : List ℕ)
      → length path ≤ 253
      → Ordinary (names path)
      → fs_get_node finddir root (slash ∷ path)
        ≡ descend finddir root (outermost_first (walk [] (names path)) [])
  unfolding fs_get_node
  fs_get_node-descend root path fits ok =
      let dir = walk [] (names path) in
      let resolved =
        found_path (fs_resolve_path (slash ∷ path) 256)
          (fs_resolve_path-Resolves path 256 (omega arith) ok) in
      rw (resolved, fs_get_node)
        (from_path-absolute root dir (
          walk-Clean (names path) [] refl (not_empty-Clean (fields path) (fields-AllNoSlash path))))
    where
      found_path :
          (r : Option (List ℕ))
          → Resolves 256 (suc (length path)) (walk [] (names path)) r
          → r ≡ some (absolute (walk [] (names path)))
      found_path none h = absurd (omega (arith, h, fits))
      found_path (some s) e = ap some e
