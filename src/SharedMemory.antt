-- ===== src/SharedMemory.antt =====
-- kernel/sharedmemory.c: objects of shared memory. A pointer to an object, or to its node, is the
-- number `address`; an access to an object that has been freed is a fault.
pub mod Counts
pub mod Newly
pub mod Frames
pub mod Objects
pub mod Kept
pub mod Growth
pub mod Ownership
pub mod Mappings
pub mod Unmapped
mod Examples
use asterisk.Base.{
  ℕ, zero, suc, ◌+◌, ◌-◌, ◌/◌, Bool, true, false, ◌&&◌, List, [], ◌∷◌, ◌++◌, Option, none, some, ℤ,
  pos, negsuc, ltb, ◌==◌, if◌then◌else◌, length,
}
use asterisk.KernelHeap.{pagesize_4k}
use asterisk.PageMemory.{Bitmap, vmm_acquire_page_frame_4k, vmm_release_page_frame_4k}
use asterisk.PageMemory.Tables.{Paging, returns, panics}
use asterisk.PageMemory.Mapping.{vmm_map_memory}
use asterisk.Files.Registry.{same_name}

-- A mapping in a process.
pub record MapInfo : Type 0 where
  pub process : ℕ
  pub v_address : ℕ
  pub page_count : ℕ

-- An object with the name and the length that its node has.
pub record SharedMemory : Type 0 where
  pub address : ℕ
  pub name : List ℕ
  pub node_length : ℕ
  pub physical_address_list : List ℕ
  pub mmapped_list : List MapInfo
  pub marked_unlink : Bool

-- `g_shm_list`, and the page memory of the machine.
pub record State : Type 0 where
  pub g_shm_list : List SharedMemory
  pub paging : Paging

-- What a call leaves: a result, an access outside the memory it may use, or the panic without a
-- free page frame.
pub data Call {ℓ} (A : Type ℓ) : Type ℓ where
  returned : A → Call A
  faulted : Call A
  panicked : Call A

-- kernel/common.h
abbrev pub user_mmap_start : ℕ
user_mmap_start = 0x80000000

-- PAGE_COUNT of kernel/common.h, for a length above zero
abbrev pub page_count_of : ℕ → ℕ
page_count_of bytes = (bytes - 1) / pagesize_4k + 1

abbrev pub node_name_size : ℕ
node_name_size = 128

-- The object at a pointer.
unfoldable pub object_at : List SharedMemory → ℕ → Option SharedMemory
object_at [] p = none
object_at (o ∷ os) p = let later = object_at os p in if o.address == p then some o else later

-- A write through the pointer to it.
unfoldable pub change : List SharedMemory → SharedMemory → List SharedMemory
change [] x = []
change (o ∷ os) x = let later = change os x in if o.address == x.address then x ∷ os else o ∷ later

-- `list_remove_first_occurrence(g_shm_list, shared_mem)`
unfoldable pub remove : List SharedMemory → ℕ → List SharedMemory
remove [] p = []
remove (o ∷ os) p = let later = remove os p in if o.address == p then os else o ∷ later

unfoldable pub sharedmemory_find : List SharedMemory → List ℕ → Option SharedMemory
sharedmemory_find [] name = none
sharedmemory_find (o ∷ os) name =
    let later = sharedmemory_find os name in if same_name name o.name then some o else later

-- The node of the first object with the name; sharedmemorydir_finddir is the same loop.
unfoldable pub sharedmemory_get_node : List SharedMemory → List ℕ → Option ℕ
sharedmemory_get_node [] name = none
sharedmemory_get_node (o ∷ os) name =
    let later = sharedmemory_get_node os name in
    if same_name name o.name then some o.address else later

-- The entry of the directory at an index: the name.
unfoldable pub sharedmemorydir_readdir : List SharedMemory → (index : ℕ) → Option (List ℕ)
sharedmemorydir_readdir [] index = none
sharedmemorydir_readdir (o ∷ os) index =
    let later = sharedmemorydir_readdir os (index - 1) in if index == 0 then some o.name else later

abbrev pub new_object : (address : ℕ) → List ℕ → SharedMemory
new_object address name = record {
  address = address;
  name = name;
  node_length = 0;
  physical_address_list = [];
  mmapped_list = [];
  marked_unlink = false;
}

-- `address` is what kmalloc returned; the result is the null pointer or the new object. The copy of
-- the name goes on behind the end of an empty one.
unfoldable pub sharedmemory_create : State → (address : ℕ) → List ℕ → Call (Option ℕ × State)
sharedmemory_create s address name = elim (sharedmemory_get_node s.g_shm_list name) [
  | some node ↦ returned (none, s)
  | none ↦
      if ltb 0 (length name) && ltb (length name) node_name_size
      then returned
          (some address, record s { g_shm_list = s.g_shm_list ++ (new_object address name ∷ []) })
      else faulted
]

unfoldable pub sharedmemory_destroy : State → ℕ → State
sharedmemory_destroy s p = record s { g_shm_list = remove s.g_shm_list p }

-- The loop that releases the page frames.
unfoldable pub release_all : Bitmap → List ℕ → Bitmap
release_all bitmap [] = bitmap
release_all bitmap (p_address ∷ rest) =
    release_all (vmm_release_page_frame_4k bitmap p_address) rest

abbrev pub is_unmapped : List MapInfo → Bool
is_unmapped [] = true
is_unmapped (i ∷ is) = false

abbrev pub with_frames : State → Bitmap → State
with_frames s bitmap = record s { paging = record s.paging { frames = bitmap } }

unfoldable pub sharedmemory_destroy_if_suitable : State → SharedMemory → State
sharedmemory_destroy_if_suitable s o =
    if o.marked_unlink && is_unmapped o.mmapped_list
    then sharedmemory_destroy (with_frames s (release_all s.paging.frames o.physical_address_list))
        o.address
    else s

abbrev pub changed : State → SharedMemory → State
changed s o = record s { g_shm_list = change s.g_shm_list o }

unfoldable pub sharedmemory_unlink : State → ℕ → Call (ℤ × State)
sharedmemory_unlink s p = elim (object_at s.g_shm_list p) [
  | none ↦ faulted
  | some o ↦
      let o' = record o { marked_unlink = true } in
      returned (pos 0, sharedmemory_destroy_if_suitable (changed s o') o')
]

-- The loop that acquires `count` page frames.
unfoldable pub acquire_all : Bitmap → (count : ℕ) → Option (List ℕ × Bitmap)
acquire_all bitmap zero = some ([], bitmap)
acquire_all bitmap (suc count) = elim (vmm_acquire_page_frame_4k bitmap) [
  | none ↦ none
  | some (p_address, bitmap') ↦ elim (acquire_all bitmap' count) [
    | none ↦ none
    | some (rest, bitmap'') ↦ some (p_address ∷ rest, bitmap'')
  ]
]

unfoldable pub sharedmemory_ftruncate : State → ℕ → ℤ → Call (ℤ × State)
sharedmemory_ftruncate s p (negsuc n) = returned (negsuc 0, s)
sharedmemory_ftruncate s p (pos zero) = returned (negsuc 0, s)
sharedmemory_ftruncate s p (pos (suc n)) = elim (object_at s.g_shm_list p) [
  | none ↦ faulted
  | some o ↦ elim (o.node_length == 0) [
    | false ↦ returned (negsuc 0, s)
    | true ↦ elim (acquire_all s.paging.frames (page_count_of (suc n))) [
      | none ↦ panicked
      | some (new, frames') ↦ returned (
        pos 0,
        with_frames
            (changed s (record o {
              node_length = suc n;
              physical_address_list = o.physical_address_list ++ new;
            }))
            frames',
      )
    ]
  ]
]

abbrev pub mapping : (process v_address page_count : ℕ) → MapInfo
mapping process v_address page_count = record {
  process = process;
  v_address = v_address;
  page_count = page_count;
}

-- The null pointer is the address 0.
abbrev pub pointer : Option ℕ → ℕ
pointer none = 0
pointer (some a) = a

-- `pages` is `mmapped_virtual_memory` of the process that owns the file, and `current` the process
-- that calls.
unfoldable pub sharedmemory_mmap :
    State → (pages : Bitmap) → (current p : ℕ) → Call (Option ℕ × (Bitmap × State))
sharedmemory_mmap s pages current p = elim (object_at s.g_shm_list p) [
  | none ↦ faulted
  | some o ↦
      let count = length o.physical_address_list in
      elim (ltb 0 count) [
        | false ↦ returned (none, (pages, s))
        | true ↦
            elim (vmm_map_memory pages s.paging user_mmap_start o.physical_address_list count
              false) [
                | panics paging ↦ panicked
                | returns (result, (pages', paging)) ↦
                    let o' = record o {
                      mmapped_list =
                          o.mmapped_list ++ (mapping current (pointer result) count ∷ []);
                    } in
                    returned (result, (pages', record (changed s o') { paging = paging }))
              ]
      ]
]

abbrev pub is_mapping : MapInfo → (process address : ℕ) → Bool
is_mapping info process address = (info.process == process) && (info.v_address == address)

-- The list without the first mapping of the address in the process, if there is one.
unfoldable pub drop_mapping : List MapInfo → (process address : ℕ) → Option (List MapInfo)
drop_mapping [] process address = none
drop_mapping (info ∷ infos) process address = elim (is_mapping info process address) [
  | true ↦ some infos
  | false ↦ elim (drop_mapping infos process address) [
    | none ↦ none
    | some rest ↦ some (info ∷ rest)
  ]
]

-- The first object that has such a mapping, without it.
unfoldable pub unmap_search : List SharedMemory → (process address : ℕ) → Option SharedMemory
unmap_search [] process address = none
unmap_search (o ∷ os) process address = elim (drop_mapping o.mmapped_list process address) [
  | some rest ↦ some (record o { mmapped_list = rest })
  | none ↦ unmap_search os process address
]

unfoldable pub sharedmemory_unmap_if_exists : State → (process address : ℕ) → Bool × State
sharedmemory_unmap_if_exists s process address = elim (unmap_search s.g_shm_list process address) [
  | none ↦ (false, s)
  | some o ↦ (true, sharedmemory_destroy_if_suitable (changed s o) o)
]

-- The addresses of the mappings in a process: those of one object, and of all.
abbrev pub addresses_in : List MapInfo → (process : ℕ) → List ℕ
addresses_in [] process = []
addresses_in (info ∷ infos) process =
    let rest = addresses_in infos process in
    if info.process == process then info.v_address ∷ rest else rest

abbrev pub process_shared_mapped_list : List SharedMemory → (process : ℕ) → List ℕ
process_shared_mapped_list [] process = []
process_shared_mapped_list (o ∷ os) process =
    addresses_in o.mmapped_list process ++ process_shared_mapped_list os process

unfoldable pub unmap_each : State → (process : ℕ) → List ℕ → State
unmap_each s process [] = s
unmap_each s process (address ∷ rest) =
    unmap_each (sharedmemory_unmap_if_exists s process address).1 process rest

unfoldable pub sharedmemory_unmap_for_process_all : State → (process : ℕ) → State
sharedmemory_unmap_for_process_all s process =
    unmap_each s process (process_shared_mapped_list s.g_shm_list process)

unfoldable pub sharedmemory_destroy_by_name : State → List ℕ → Bool × State
sharedmemory_destroy_by_name s name = elim (sharedmemory_find s.g_shm_list name) [
  | none ↦ (false, s)
  | some o ↦ (true, sharedmemory_destroy s o.address)
]
