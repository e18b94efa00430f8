-- ===== src/PageMemory/Tables.antt =====
-- kernel/vmm.c: page directories and page tables. Memory is a function from the address of a page
-- and the place of a 32-bit entry in it to the entry. The directory that a page directory has as
-- its last entry makes the active directory and its tables readable; they are read from memory
-- directly.
use asterisk.Base.{
  ◌*◌, ℕ, zero, suc, ◌-◌, ◌/◌, ◌%◌, ◌^◌, Bool, true, false, not, ◌&&◌, none, some, ltb, leb, ◌==◌,
  if◌then◌else◌,
}
use asterisk.KernelHeap.{pagesize_4k, kern_heap_end}
use asterisk.PageMemory.{Bitmap, vmm_acquire_page_frame_4k, vmm_release_page_frame_4k}
use Prim.Native.Nat.{bit_and, bit_or}

-- kernel/common.h
abbrev pub kern_page_directory : ℕ
kern_page_directory = 0x00001000

abbrev pub kern_pd_area_begin : ℕ
kern_pd_area_begin = 0x00C00000

abbrev pub kern_pd_area_end : ℕ
kern_pd_area_end = 0x01000000

abbrev pub pg_present : ℕ
pg_present = 0x00000001

abbrev pub pg_write : ℕ
pg_write = 0x00000002

abbrev pub pg_user : ℕ
pg_user = 0x00000004

abbrev pub pg_owned : ℕ
pg_owned = 0x00000200

abbrev pub kernelmemory_page_count : ℕ
kernelmemory_page_count = 256

-- The page frames, the memory and the register CR3.
pub record Paging : Type 0 where
  pub frames : Bitmap
  pub entries : ℕ → ℕ → ℕ
  pub cr3 : ℕ

abbrev pub store : Paging → (page index entry : ℕ) → Paging
store s page index entry = record s {
  entries = λ p i. if p == page && i == index then entry else s.entries p i;
}

-- `(entry & flag) == flag`
abbrev pub has_pg : ℕ → ℕ → Bool
has_pg entry flag = bit_and entry flag == flag

-- `x & ~0xFFF`, and `x & 0xFFFFF000`, on `uint32_t`
abbrev pub frame_of : ℕ → ℕ
frame_of x = x / 2 ^ 12 * 2 ^ 12

abbrev pub zero_table : Paging → ℕ → Paging
zero_table s page = record s {
  entries = λ p i. if p == page && ltb i 1024 then 0 else s.entries p i;
}

-- The page directories in use are those whose first entry is not zero.
unfoldable pub vmm_sync_all_from_kernel : Paging → Paging
vmm_sync_all_from_kernel s = record s {
  entries = λ p i.
      if leb kern_pd_area_begin p
        && ltb p kern_pd_area_end
        && (p % pagesize_4k == 0)
        && not (s.entries p 0 == 0)
        && ltb i kernelmemory_page_count
      then bit_and (s.entries kern_page_directory i) (2 ^ 32 - 1 - pg_owned)
      else s.entries p i;
}

-- The directory in which a page is added or removed.
abbrev pub directory : Paging → ℕ → ℕ
directory s v_addr = if ltb v_addr kern_heap_end then kern_page_directory else s.cr3

abbrev pub synced : Paging → ℕ → Paging
synced s v_addr = if ltb v_addr kern_heap_end then vmm_sync_all_from_kernel s else s

-- What a call leaves: a state, or the panic of a machine without free page frames.
pub data Result {ℓ} (A : Type ℓ) : Type ℓ where
  returns : A → Result A
  panics : Paging → Result A

-- `p | (flags & 0xFFF) | (PG_PRESENT | PG_WRITE)`
abbrev pub entry_for : (p flags : ℕ) → ℕ
entry_for p flags = bit_or (bit_or p (bit_and flags 0xFFF)) (bit_or pg_present pg_write)

-- The part of `vmm_add_page_to_pd` that makes a page table where there is none.
unfoldable pub with_table : Paging → (v_addr flags : ℕ) → Result Paging
with_table s v_addr flags =
    let pd = directory s v_addr in
    let pd_index = v_addr / 2 ^ 22 in
    elim (has_pg (s.entries pd pd_index) pg_present) [
      | true ↦ returns s
      | false ↦ elim (vmm_acquire_page_frame_4k s.frames) [
        | none ↦ panics s
        | some (table, frames') ↦
            let s' = store (record s { frames = frames' }) pd pd_index (entry_for table flags) in
            returns (zero_table s' (frame_of (s'.entries pd pd_index)))
      ]
    ]

-- The rest of it.
unfoldable pub with_entry : Paging → (v_addr p_addr flags : ℕ) → Bool × Paging
with_entry s v_addr p_addr flags =
    let pt = frame_of (s.entries (directory s v_addr) (v_addr / 2 ^ 22)) in
    let pt_index = v_addr / 2 ^ 12 % 0x400 in
    if has_pg (s.entries pt pt_index) pg_present
    then (false, s)
    else (true, synced (store s pt pt_index (entry_for p_addr flags)) v_addr)

unfoldable pub vmm_add_page_to_pd : Paging → (v_addr p_addr flags : ℕ) → Result (Bool × Paging)
vmm_add_page_to_pd s v_addr p_addr flags = elim (with_table s v_addr flags) [
  | panics s' ↦ panics s'
  | returns s' ↦ returns (with_entry s' v_addr p_addr flags)
]

abbrev pub release_owned : Paging → (entry : ℕ) → Paging
release_owned s entry =
    if has_pg entry pg_owned
    then record s { frames = vmm_release_page_frame_4k s.frames (frame_of entry) }
    else s

-- Whether the first entries of a page table are zero.
abbrev pub all_unmapped : Paging → (pt count : ℕ) → Bool
all_unmapped s pt zero = true
all_unmapped s pt (suc i) = all_unmapped s pt i && (s.entries pt i == 0)

-- What happens to the page table once an entry has been removed from it.
unfoldable pub drop_table : Paging → (pd pd_index pt : ℕ) → Paging
drop_table s pd pd_index pt =
    let entry = s.entries pd pd_index in
    if all_unmapped s pt 1024 && has_pg entry pg_owned
    then release_owned (store s pd pd_index 0) entry
    else s

unfoldable pub vmm_remove_page_from_pd : Paging → ℕ → Bool × Paging
vmm_remove_page_from_pd s v_addr =
    let pd = directory s v_addr in
    let pd_index = v_addr / 2 ^ 22 in
    let pt_index = v_addr / 2 ^ 12 % 0x400 in
    if has_pg (s.entries pd pd_index) pg_present
    then (let pt = frame_of (s.entries pd pd_index) in
        let s₁ = release_owned s (s.entries pt pt_index) in
        let s₂ = store s₁ pt pt_index 0 in (true, synced (drop_table s₂ pd pd_index pt) v_addr))
    else (false, s)
