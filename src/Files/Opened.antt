-- ===== src/Files/Opened.antt =====
-- Opening a file that its driver can open, and closing it.
use asterisk.Base.{
  List, [], ◌∷◌, false, if◌then◌else◌, ℕ, ◌≡◌, ◌∙◌, inl, inr, refl, ap, Bool, true, ◌++◌,
  Option-cases, Option, none, some, ℤ, pos, neg, negsuc, set, length,
}
use asterisk.PageMemory.Search.{Lowest}
use asterisk.Files.{
  OpenFile, Files, Node, FileEvent, closed, freed, is_null, is_file, first_slot, put_file,
  process_add_file, process_remove_file, mounted, close_events, fs_close, fs_open_for_process,
}
use asterisk.Files.Slots.{
  Absent, in_use, same_file, first_slot-Absent, first_slot-set, first_slot-Lowest,
}

-- What is done with a file that is closed: its driver is told, if it has a `close`, and then its
-- memory is freed.
abbrev pub end_of : (nodes : ℕ → Node) → (address node : ℕ) → List FileEvent
end_of nodes address node =
    (let n = nodes node in if n.has_close then closed address ∷ [] else []) ++ (freed address ∷ [])

close_events-end_of :
    (nodes : ℕ → Node) (address node : ℕ)
    → close_events nodes address node ≡ end_of nodes address node
close_events-end_of nodes address node = by_close (let n = nodes node in n.has_close)
  where
    by_close :
        (b : Bool)
        → (if b then closed address ∷ freed address ∷ [] else freed address ∷ [])
          ≡ (if b then closed address ∷ [] else []) ++ (freed address ∷ [])
    by_close true = refl
    by_close false = refl

-- What opening the file at `address` leaves, by the first empty descriptor.
abbrev pub Opened :
    (nodes : ℕ → Node) → Files → (address node : ℕ) → Option ℕ → Option ℕ × Files → Type 0
Opened nodes s address node none (result, s') =
    (result ≡ none) × (s'.fd ≡ s.fd) × (s'.events ≡ s.events ++ end_of nodes address node)
Opened nodes s address node (some i) (result, s') =
    let file = s'.files address in
    let after = fs_close nodes s' address in
    (result ≡ some address)
    × (s'.fd ≡ set s.fd i (some address))
    × (file.fd ≡ i)
    × (s'.events ≡ s.events)
    × (after.fd ≡ s.fd)
    × (after.events ≡ s.events ++ end_of nodes address node)

add-full :
    (s : Files) (file : ℕ) → first_slot is_null s.fd ≡ none → process_add_file s file ≡ (neg 1, s)
unfolding process_add_file
add-full s file e = rw (e, process_add_file) refl

-- The state in which a file has been put at a descriptor.
abbrev added : Files → (file i : ℕ) → Files
added s file i = record (put_file s file (record (s.files file) { fd = i })) {
  fd = set s.fd i (some file);
}

add-slot :
    (s : Files) (file i : ℕ)
    → first_slot is_null s.fd ≡ some i
    → process_add_file s file ≡ (pos i, added s file i)
unfolding process_add_file
add-slot s file i e = rw (e, process_add_file) refl

remove-Absent :
    (s : Files) (file : ℕ)
    → first_slot (is_file file) s.fd ≡ none
    → process_remove_file s file ≡ (neg 1, s)
unfolding process_remove_file
remove-Absent s file e = rw (e, process_remove_file) refl

remove-slot :
    (s : Files) (file i : ℕ)
    → first_slot (is_file file) s.fd ≡ some i
    → process_remove_file s file ≡ (pos i, record s { fd = set s.fd i none })
unfolding process_remove_file
remove-slot s file i e = rw (e, process_remove_file) refl

module _ (nodes : ℕ → Node) where
  close-removed :
      (s s' : Files) (file : ℕ) (result : ℤ)
      → process_remove_file s file ≡ (result, s')
      → fs_close nodes s file ≡ record s' {
        events = s'.events ++ close_events nodes file (let f = s.files file in f.node);
      }
  unfolding fs_close
  close-removed s s' file result e =
      ap
        (λ r. record (r.1) {
          events = r.1.events ++ close_events nodes file (let f = s.files file in f.node);
        })
        e

  module _ (s : Files) (address : ℕ) (absent : Absent address s.fd) where
    -- What follows the call of the driver.
    abbrev finish : ℤ × Files → Option ℕ × Files
    finish (fd, s₂) = elim fd [
      | pos i ↦ (some address, s₂)
      | negsuc i ↦ (none, fs_close nodes s₂ address)
    ]

    finish-full :
        (file : OpenFile)
        → Opened nodes s address file.node none (finish (neg 1, put_file s address file))
    finish-full file =
        let s₁ = put_file s address file in
        let closing =
          close-removed s₁ s₁ address (neg 1)
            (remove-Absent s₁ address (first_slot-Absent address s.fd absent)) in
        (
          refl,
          ap (λ r. r.fd) closing,
          ap (λ r. r.events) closing
              ∙ ((rw (same_file address) refl)
                  ∙ ap (λ l. s.events ++ l) (close_events-end_of nodes address file.node)),
        )

    finish-slot :
        (file : OpenFile) (i : ℕ)
        → first_slot is_null s.fd ≡ some i
        → Opened nodes s address file.node
            (some i)
            (finish (pos i, added (put_file s address file) address i))
    finish-slot file i found =
        let s₂ = added (put_file s address file) address i in
        let (again, back) = first_slot-set address s.fd i absent found in
        let closing =
          close-removed s₂ (record s₂ { fd = set s₂.fd i none }) address (pos i)
            (remove-slot s₂ address i again) in
        (
          refl,
          refl,
          (rw (same_file address) refl),
          refl,
          ap (λ r. r.fd) closing ∙ back,
          ap (λ r. r.events) closing
              ∙ ((rw (same_file address) refl)
                  ∙ ap (λ l. s.events ++ l) (close_events-end_of nodes address file.node)),
        )

    install-Opened :
        (file : OpenFile)
        → Opened nodes s address file.node
            (first_slot is_null s.fd)
            (finish (process_add_file (put_file s address file) address))
    install-Opened file =
        let s₁ = put_file s address file in
        elim (Option-cases (first_slot is_null s.fd)) [
          | inl full ↦ rw (full, add-full s₁ address full) (finish-full file)
          | inr (i, found) ↦ rw (found, add-slot s₁ address i found) (finish-slot file i found)
        ]

    -- When the driver can open the file, at an address that no descriptor has, it gets the lowest
    -- descriptor that is empty and closing it leaves the descriptors as they were; when none is
    -- empty, the result is null, the descriptors stay as they are, and the file is closed and its
    -- memory freed.
    pub fs_open_for_process-Opened :
        (node flags : ℕ) (open_file : OpenFile → Bool × OpenFile)
        → (let n = nodes (mounted nodes node) in n.opens ≡ some open_file)
        → (open_file (record { node = mounted nodes node; fd = 0; flags = flags; offset = 0 })).0
          ≡ true
        → (let file =
              (open_file
                (record { node = mounted nodes node; fd = 0; flags = flags; offset = 0 })).1 in
            Lowest (in_use s.fd) 0 (length s.fd) (first_slot is_null s.fd)
            × Opened nodes s address file.node
                (first_slot is_null s.fd)
                (fs_open_for_process nodes s address node flags))
    unfolding fs_open_for_process
    fs_open_for_process-Opened node flags open_file opens success =
        let file =
          (open_file (record { node = mounted nodes node; fd = 0; flags = flags; offset = 0 })).1 in
        (first_slot-Lowest s.fd, rw (opens, fs_open_for_process, success) (install-Opened file))
