-- ===== src/Paths/Lookup.antt =====
-- kernel/fs.c: from a path to the node of a file.
pub mod Found
use asterisk.Base.{
  ℕ, zero, suc, ◌+◌, Bool, true, false, ◌&&◌, List, [], ◌∷◌, Option, none, some, ltb, ◌==◌,
  if◌then◌else◌, length, drop,
}
use asterisk.Paths.{slash, next_token, fs_resolve_path}

-- The part of `filesystem_node` that the search reads; `finddir` is a driver's.
pub record Folder : Type 0 where
  pub is_mount_point : Bool
  pub mount_point : Option ℕ
  pub is_directory : Bool
  pub finddir : Option (List ℕ → Option ℕ)

module _ (folders : ℕ → Folder) where
  abbrev call_finddir : ℕ → List ℕ → Option ℕ
  call_finddir node name =
      let n = folders node in elim n.finddir [ none ↦ none | some find ↦ find name ]

  unfoldable pub fs_finddir : ℕ → List ℕ → Option ℕ
  fs_finddir node name =
      let n = folders node in
      let own = if n.is_directory then call_finddir node name else none in
      if n.is_mount_point
      then (elim n.mount_point [ some other ↦ call_finddir other name | none ↦ own ])
      else own

-- The result of a search: a node, null, or a name that does not fit the 64 bytes of `buffer`.
pub data Lookup : Type 0 where
  found : ℕ → Lookup
  missing overruns : Lookup

module _ (finddir : ℕ → List ℕ → Option ℕ) where
  -- The loop of `fs_get_node`, with the path behind the slash. With a slash at its start it begins
  -- anew.
  unfoldable pub find_loop : (fuel : ℕ) → (input : List ℕ) → (node : ℕ) → Lookup
  find_loop zero input node = missing
  find_loop (suc fuel) input node =
      let (name, after) = next_token input in
      elim (length name == 0 && ltb 0 (length after)) [
        | true ↦ find_loop fuel (drop 1 after) node
        | false ↦ elim (ltb (length name) 64 && ltb 0 (length name)) [
          | false ↦ overruns
          | true ↦ elim (finddir node name) [
            | none ↦ missing
            | some next ↦ elim (ltb 0 (length after)) [
              | true ↦ find_loop fuel (drop 1 after) next
              | false ↦ found next
            ]
          ]
        ]
      ]

  unfoldable pub fs_get_node : (root : ℕ) → List ℕ → Lookup
  fs_get_node root path = elim (fs_resolve_path path 256) [
    | none ↦ missing
    | some real_path ↦
        if length real_path == 0
        then missing
        else if length real_path == 1
        then found root
        else find_loop (length real_path) (drop 1 real_path) root
  ]
