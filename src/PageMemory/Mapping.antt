-- ===== src/PageMemory/Mapping.antt =====
-- kernel/vmm.c: the virtual pages of a process, and their mapping.
pub mod Runs
pub mod Marks
pub mod Maps
use asterisk.Base.{
  ℕ, zero, suc, ◌+◌, ◌-◌, ◌*◌, ◌/◌, ◌%◌, ◌^◌, Bool, true, false, not, ◌&&◌, Option, none, some, ltb,
  leb, ◌==◌, if◌then◌else◌, List, [], ◌∷◌, get_or, drop,
}
use asterisk.KernelHeap.{pagesize_4k}
use asterisk.PageMemory.{
  Bitmap, page_index_4k, is_pageframe_used, set_pageframe_used, set_pageframe_unused, fill_bytes,
  ram_as_4k_pages,
}
use asterisk.PageMemory.Tables.{
  Paging, Result, returns, panics, vmm_add_page_to_pd, vmm_remove_page_from_pd, pg_user, frame_of,
  pg_owned,
}
use Prim.Native.Nat.{bit_and, bit_or}

-- kernel/common.h
abbrev pub user_offset : ℕ
user_offset = 0x40000000

abbrev pub memory_end : ℕ
memory_end = 0xFFC00000

-- The pages from `first` on are marked as not in use.
unfoldable pub free_pages : Bitmap → (first count : ℕ) → Bitmap
free_pages bitmap first zero = bitmap
free_pages bitmap first (suc i) =
    set_pageframe_unused (free_pages bitmap first i) ((first + i) * pagesize_4k)

unfoldable pub vmm_initialize_process_pages : Bitmap → Bitmap
vmm_initialize_process_pages bitmap =
    let full = fill_bytes bitmap 0 (ram_as_4k_pages / 8) 0xFF in
    free_pages full (page_index_4k user_offset)
      (page_index_4k memory_end - page_index_4k user_offset)

-- The search of `vmm_map_memory` over the `left` pages from `page_index` on: where the first run of
-- `page_count` free pages begins.
unfoldable pub find_adjacent :
    Bitmap → (page_count page_index left found_adjacent v_mem : ℕ) → Option ℕ
find_adjacent bitmap page_count page_index zero found_adjacent v_mem = none
find_adjacent bitmap page_count page_index (suc left) found_adjacent v_mem =
    let used = is_pageframe_used bitmap page_index in
    let found' = if used then 0 else suc found_adjacent in
    let v_mem' =
      if used then 0 else if found_adjacent == 0 then page_index * pagesize_4k else v_mem in
    elim (found' == page_count) [
      | true ↦ some v_mem'
      | false ↦ find_adjacent bitmap page_count (suc page_index) left found' v_mem'
    ]

-- The pages and the state of a process: the bitmap `mmapped_virtual_memory` beside the page tables.
abbrev pub own_flags : Bool → ℕ
own_flags own = bit_or pg_user (if own then pg_owned else 0)

-- The loop that maps `count` pages. What vmm_add_page_to_pd says is not looked at.
unfoldable pub map_pages :
    Bitmap → Paging → (v : ℕ) → List ℕ → (count : ℕ) → (own : Bool) → Result (Bitmap × Paging)
map_pages bitmap s v p_addresses zero own = returns (bitmap, s)
map_pages bitmap s v p_addresses (suc count) own =
    elim (vmm_add_page_to_pd s v (frame_of (get_or p_addresses 0 0)) (own_flags own)) [
      | panics s' ↦ panics s'
      | returns (_, s') ↦
          map_pages (set_pageframe_used bitmap (page_index_4k v)) s' (v + pagesize_4k)
            (drop 1 p_addresses) count own
    ]

-- `none` is the null pointer.
unfoldable pub vmm_map_memory :
    Bitmap
    → Paging
    → (v_address_search_start : ℕ) → List ℕ
    → (page_count : ℕ) → (own : Bool) → Result (Option ℕ × (Bitmap × Paging))
vmm_map_memory bitmap s start p_addresses zero own = returns (none, (bitmap, s))
vmm_map_memory bitmap s start p_addresses (suc count) own =
    let first = page_index_4k start in
    elim (find_adjacent bitmap (suc count) first (page_index_4k memory_end - first) 0 0) [
      | none ↦ returns (none, (bitmap, s))
      | some v_mem ↦ elim (map_pages bitmap s v_mem p_addresses (suc count) own) [
        | panics s' ↦ panics s'
        | returns after ↦ returns (some v_mem, after)
      ]
    ]

-- The loop of `vmm_unmap_memory` over `count` pages, and whether one of them was in use.
unfoldable pub unmap_pages : Bitmap → Paging → (page_index count : ℕ) → Bool × (Bitmap × Paging)
unmap_pages bitmap s page_index zero = (false, (bitmap, s))
unmap_pages bitmap s page_index (suc count) = elim (is_pageframe_used bitmap page_index) [
  | true ↦
      let v_addr = page_index * pagesize_4k % 2 ^ 32 in
      let s' = (vmm_remove_page_from_pd s v_addr).1 in
      (true, (unmap_pages (set_pageframe_unused bitmap v_addr) s' (suc page_index) count).1)
  | false ↦ unmap_pages bitmap s (suc page_index) count
]

unfoldable pub vmm_unmap_memory :
    Bitmap → Paging → (v_address page_count : ℕ) → Bool × (Bitmap × Paging)
vmm_unmap_memory bitmap s v_address zero = (false, (bitmap, s))
vmm_unmap_memory bitmap s v_address (suc count) =
    let start_index = page_index_4k (frame_of v_address) in
    let end_index = (start_index + suc count) % 2 ^ 32 in
    unmap_pages bitmap s start_index (end_index - start_index)
