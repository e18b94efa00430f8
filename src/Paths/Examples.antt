-- ===== src/Paths/Examples.antt =====
-- The theorems at the path "/dev/./tty/../pipe" and at small trees.
use asterisk.Base.{ℕ, ◌≡◌, refl, arith, List, [], ◌∷◌, ◌++◌, ◌+◌, ◌*◌, Option, some, length}
use asterisk.Paths.{slash, dot, fs_resolve_path, resolve_loop}
use asterisk.Paths.Names.{names}
use asterisk.Paths.Resolve.{
  walk, Resolves, Ordinary, fs_resolve_path-Resolves, fs_resolve_path-hidden,
}
use asterisk.Paths.Lookup.{found, fs_get_node}
use asterisk.Paths.Lookup.Found.{fs_get_node-descend}

abbrev dev : List ℕ
dev = b'd' ∷ b'e' ∷ b'v' ∷ []

abbrev tty : List ℕ
tty = b't' ∷ b't' ∷ b'y' ∷ []

abbrev pipe : List ℕ
pipe = b'p' ∷ b'i' ∷ []

abbrev path : List ℕ
path = dev ++ (slash ∷ dot ∷ slash ∷ (tty ++ (slash ∷ dot ∷ dot ∷ slash ∷ pipe)))

path-Ordinary : Ordinary (names path)
path-Ordinary = (
  (λ h. absurd (cc)),
  ((λ h. refl), ((λ h. absurd (cc)), ((λ h. refl), ((λ h. absurd (cc)), refl)))),
)

resolved_path : fs_resolve_path (slash ∷ path) 256 ≡ some (slash ∷ (dev ++ (slash ∷ pipe)))
unfolding fs_resolve_path resolve_loop
resolved_path = refl

fs_resolve_path-Resolves_example :
    Resolves 256 (length (slash ∷ path)) (walk [] (names path)) (fs_resolve_path (slash ∷ path) 256)
fs_resolve_path-Resolves_example = fs_resolve_path-Resolves path 256 (omega arith) path-Ordinary

fs_resolve_path-hidden_example : fs_resolve_path (slash ∷ dot ∷ dev) 256 ≡ some (slash ∷ [])
fs_resolve_path-hidden_example =
    fs_resolve_path-hidden dev 256 (refl, (refl, (refl, (refl, refl)))) (omega arith)

-- Node 0 is the root, and each name leads to a node by its length.
abbrev finddir : ℕ → List ℕ → Option ℕ
finddir node name = some (10 * node + length name)

fs_get_node-descend_example : fs_get_node finddir 0 (slash ∷ path) ≡ found 32
fs_get_node-descend_example = fs_get_node-descend finddir 0 path (omega arith) path-Ordinary
