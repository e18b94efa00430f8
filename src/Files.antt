-- ===== src/Files.antt =====
-- kernel/process.c and kernel/fs.c: the open files of a process. A pointer to a file is its
-- address, and the array of descriptors a list; a driver's functions are parameters.
pub mod Slots
pub mod Opened
pub mod Stat
pub mod Registry
mod Examples
use asterisk.Base.{
  ℕ, zero, suc, Bool, true, false, not, ◌&&◌, ◌++◌, List, [], ◌∷◌, Option, none, some, ℤ, pos, neg,
  negsuc, ◌==◌, if◌then◌else◌, get_or, set,
}

-- `struct File`, less its process, thread and private data.
pub record OpenFile : Type 0 where
  pub node : ℕ
  pub fd : ℕ
  pub flags : ℕ
  pub offset : ℕ

-- What is done with a file at its end: a call of the driver's `close`, and of kfree.
pub data FileEvent : Type 0 where
  closed freed : ℕ → FileEvent

-- The descriptors of the process, the files in memory, and what was done with files.
pub record Files : Type 0 where
  pub fd : List (Option ℕ)
  pub files : ℕ → OpenFile
  pub events : List FileEvent

abbrev pub is_null : Option ℕ → Bool
is_null none = true
is_null (some file) = false

abbrev pub is_file : ℕ → Option ℕ → Bool
is_file file none = false
is_file file (some f) = f == file

-- The loop over the descriptors that stops at the first one with `p`.
unfoldable pub first_slot : (Option ℕ → Bool) → List (Option ℕ) → Option ℕ
first_slot p [] = none
first_slot p (x ∷ xs) = elim (p x) [
  | true ↦ some 0
  | false ↦ elim (first_slot p xs) [ none ↦ none | some i ↦ some (suc i) ]
]

abbrev pub put_file : Files → ℕ → OpenFile → Files
put_file s file content = record s { files = λ f. if f == file then content else s.files f }

unfoldable pub process_get_empty_fd : Files → ℤ
process_get_empty_fd s = elim (first_slot is_null s.fd) [ none ↦ neg 1 | some i ↦ pos i ]

unfoldable pub process_add_file : Files → ℕ → ℤ × Files
process_add_file s file = elim (first_slot is_null s.fd) [
  | none ↦ (neg 1, s)
  | some i ↦ (
    pos i,
    record (put_file s file (record (s.files file) { fd = i })) { fd = set s.fd i (some file) },
  )
]

unfoldable pub process_remove_file : Files → ℕ → ℤ × Files
process_remove_file s file = elim (first_slot (is_file file) s.fd) [
  | none ↦ (neg 1, s)
  | some i ↦ (pos i, record s { fd = set s.fd i none })
]

abbrev pub has_node : (ℕ → OpenFile) → ℕ → Option ℕ → Bool
has_node files node none = false
has_node files node (some f) = let file = files f in file.node == node

unfoldable pub process_find_file : Files → ℕ → Option ℕ
process_find_file s node = elim (first_slot (has_node s.files node) s.fd) [
  | none ↦ none
  | some i ↦ get_or s.fd i none
]

-- The driver of a node: its `open`, if it has one, which says whether it could open the file and
-- may change it, and whether it has a `close`. A mount point stands for another node.
pub record Node : Type 0 where
  pub opens : Option (OpenFile → Bool × OpenFile)
  pub has_close : Bool
  pub is_mount_point : Bool
  pub mount_point : Option ℕ

module _ (nodes : ℕ → Node) where
  abbrev pub mounted : ℕ → ℕ
  mounted node =
      let n = nodes node in
      elim n.mount_point [ none ↦ node | some other ↦ if n.is_mount_point then other else node ]

  abbrev pub close_events : (file node : ℕ) → List FileEvent
  close_events file node =
      let n = nodes node in if n.has_close then closed file ∷ freed file ∷ [] else freed file ∷ []

  unfoldable pub fs_close : Files → ℕ → Files
  fs_close s file =
      let f = s.files file in
      let s' = (process_remove_file s file).1 in
      record s' { events = s'.events ++ close_events file f.node }

  -- `address` is what kmalloc returns for the new file.
  unfoldable pub fs_open_for_process : Files → (address node flags : ℕ) → Option ℕ × Files
  fs_open_for_process s address node flags =
      let node' = mounted node in
      let n = nodes node' in
      elim n.opens [
        | none ↦ (none, s)
        | some open_file ↦
            let (success, file) =
              open_file (record { node = node'; fd = 0; flags = flags; offset = 0 }) in
            let s₁ = put_file s address file in
            elim success [
              | true ↦
                  let (fd, s₂) = process_add_file s₁ address in
                  elim fd [ pos i ↦ (some address, s₂) | negsuc i ↦ (none, fs_close s₂ address) ]
              | false ↦ (none, record s₁ { events = s₁.events ++ (freed address ∷ []) })
            ]
      ]
