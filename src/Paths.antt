-- ===== src/Paths.antt =====
-- kernel/fs.c: absolute paths. A path is the list of its bytes before the terminator.
pub mod Names
pub mod Buffer
pub mod Rounds
pub mod Resolve
pub mod Lookup
mod Examples
use asterisk.Base.{
  ℕ, zero, suc, ◌+◌, Bool, true, false, ◌&&◌, List, [], ◌∷◌, Option, none, some, ltb, ◌==◌,
  if◌then◌else◌, length, drop,
}

abbrev pub slash : ℕ
slash = 47

abbrev pub dot : ℕ
dot = 46

-- The first list, byte by byte, in front of the second: what a copy does to a buffer that is read
-- from its end.
abbrev pub onto : List ℕ → List ℕ → List ℕ
onto [] out = out
onto (c ∷ cs) out = onto cs (c ∷ out)

abbrev pub skip_slashes : List ℕ → List ℕ
skip_slashes [] = []
skip_slashes (c ∷ s) = let rest = skip_slashes s in if c == slash then rest else c ∷ s

-- The bytes up to the next slash, and the rest from there.
abbrev pub next_token : List ℕ → List ℕ × List ℕ
next_token [] = ([], [])
next_token (c ∷ s) =
    let (tok, rest) = next_token s in if c == slash then ([], c ∷ s) else (c ∷ tok, rest)

-- `strncmp(current, "..", 2) == 0` and `strncmp(current, ".", 1) == 0`
abbrev pub is_up : List ℕ → Bool
is_up [] = false
is_up (a ∷ []) = false
is_up (a ∷ b ∷ s) = a == dot && b == dot

abbrev pub is_here : List ℕ → Bool
is_here [] = false
is_here (a ∷ s) = a == dot

-- The buffer is the list of its bytes before `index_buffer`, the last one first. This is the loop
-- that goes back to a slash, with the increment behind it.
abbrev pub go_back : List ℕ → List ℕ
go_back [] = 0 ∷ []
go_back (c ∷ out) = let rest = go_back out in if c == slash then c ∷ out else rest

-- The whole of the case "..".
abbrev pub go_up : List ℕ → List ℕ
go_up [] = []
go_up (c ∷ []) = c ∷ []
go_up (c ∷ d ∷ out) = go_back (d ∷ out)

-- The copy of a name, and of the slash behind it.
abbrev pub put_token : (tok after : List ℕ) → List ℕ → List ℕ
put_token tok [] out = onto tok out
put_token tok (c ∷ after) out = slash ∷ onto tok out

-- The main loop, with the path behind `index`; `none` is FALSE.
unfoldable pub resolve_loop : (fuel : ℕ) → (buffer_size : ℕ) → (rest out : List ℕ) → Option (List ℕ)
resolve_loop zero size rest out = some out
resolve_loop (suc fuel) size [] out = some out
resolve_loop (suc fuel) size (c ∷ rest) out =
    let current = skip_slashes (c ∷ rest) in
    let (tok, after) = next_token current in
    elim (ltb 0 (length tok)) [
      | false ↦ some out
      | true ↦ elim (is_up current) [
        | true ↦ resolve_loop fuel size (drop 1 after) (go_up out)
        | false ↦ elim (is_here current) [
          | true ↦ resolve_loop fuel size (drop 1 after) out
          | false ↦ elim (ltb size (length out + length tok + 2)) [
            | true ↦ none
            | false ↦ resolve_loop fuel size (drop 1 after) (put_token tok after out)
          ]
        ]
      ]
    ]

-- The slash at the end goes, but not that of the root.
abbrev pub strip_slash : List ℕ → List ℕ
strip_slash [] = []
strip_slash (c ∷ out) = if ltb 2 (length (c ∷ out)) && c == slash then out else c ∷ out

-- The string in the buffer; `none` is FALSE.
unfoldable pub fs_resolve_path : List ℕ → (buffer_size : ℕ) → Option (List ℕ)
fs_resolve_path [] size = none
fs_resolve_path (c ∷ path) size =
    if c == slash
    then (if ltb size 2 then none else elim (resolve_loop (length path) size path (slash ∷ [])) [
      | none ↦ none
      | some out ↦ some (onto (strip_slash out) [])
    ])
    else none
