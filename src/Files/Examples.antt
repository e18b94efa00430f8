-- ===== src/Files/Examples.antt =====
-- The theorems at a process with two files open and a terminal to open.
use asterisk.Base.{
  ◌*◌, ◌+◌, List, ℕ, ◌≡◌, ◌≢◌, refl, arith, Bool, true, [], ◌∷◌, none, some, pos, if◌then◌else◌,
  ◌==◌,
}
use asterisk.PageMemory.Search.{Lowest}
use asterisk.Files.{
  OpenFile, Files, Node, is_null, first_slot, fs_open_for_process, process_get_empty_fd,
  process_find_file,
}
use asterisk.Files.Slots.{in_use}
use asterisk.Files.Opened.{Opened, fs_open_for_process-Opened}
use asterisk.Files.Registry.{
  FileSystem, fs_register, writes_outside, Registered, fs_register-Registered,
}
use asterisk.Files.Stat.{s_ifreg, s_ifblk, s_iflnk, fs_stat, fs_stat-spares, ft_block_device}

abbrev opened : OpenFile → Bool × OpenFile
opened file = (true, record file { offset = 0 })

-- Node 1 is a mount point for node 2.
abbrev nodes : ℕ → Node
nodes node = record {
  opens = some opened;
  has_close = true;
  is_mount_point = node == 1;
  mount_point = if node == 1 then some 2 else none;
}

abbrev process : Files
process = record {
  fd = some 100 ∷ none ∷ some 200 ∷ none ∷ [];
  files = λ f. record { node = f; fd = 0; flags = 0; offset = 0 };
  events = [];
}

empty_fd : process_get_empty_fd process ≡ pos 1
unfolding process_get_empty_fd first_slot
empty_fd = refl

found_file : process_find_file process 200 ≡ some 200
unfolding process_find_file first_slot
found_file = refl

fs_open_for_process-Opened_example :
    Lowest (in_use process.fd) 0 4 (first_slot is_null process.fd)
    × Opened nodes process 300 2
        (first_slot is_null process.fd)
        (fs_open_for_process nodes process 300 1 0)
fs_open_for_process-Opened_example =
    fs_open_for_process-Opened nodes process 300 (refl, (refl, (refl, (refl, refl)))) 1 0 opened
      refl refl

fs_stat-spares_example :
    let (result, (filled, _)) =
      fs_stat (some (pos 1, (s_ifreg, 0))) s_ifreg 0 ft_block_device 512 in
    (result ≡ pos 0) × (filled ≢ s_ifblk) × (filled ≢ s_iflnk)
fs_stat-spares_example =
    fs_stat-spares s_ifreg s_ifreg 0 0 3 512 (omega arith) (λ e. omega (arith, e))
      (λ e. omega (arith, e))

abbrev named : ℕ → FileSystem
named n = record { name = n ∷ []; check_mount = 2 * n; mount = 2 * n + 1 }

fs_register-Registered_example :
    Registered
      (λ f. f == 7)
      (named 1 ∷ named 2 ∷ [])
      (named 3)
      (fs_register (named 1 ∷ named 2 ∷ []) (named 3))
fs_register-Registered_example =
    fs_register-Registered (λ f. f == 7) (named 1 ∷ named 2 ∷ []) (named 3)

abbrev full_registry : List FileSystem
full_registry =
    named 1
    ∷ named 2
    ∷ named 3
    ∷ named 4
    ∷ named 5
    ∷ named 6
    ∷ named 7
    ∷ named 8
    ∷ named 9
    ∷ named 10
    ∷ []

fs_register_full : fs_register full_registry (named 11) ≡ writes_outside
unfolding fs_register
fs_register_full = refl
