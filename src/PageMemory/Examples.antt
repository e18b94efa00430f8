-- ===== src/PageMemory/Examples.antt =====
-- The theorems at a machine of 64 megabytes.
use asterisk.Base.{if_both, if◌then◌else◌, ◌==◌, true, ◌<◌, ◌≡◌, refl, arith, true, [], ◌∷◌, some}
use asterisk.PageMemory.{Bitmap, vmm_release_page_frame_4k, set_pageframe_used, is_pageframe_used}
use asterisk.PageMemory.Frames.{IsBytes}
use asterisk.PageMemory.Tables.{Paging}
use asterisk.PageMemory.Mapping.{find_adjacent, vmm_map_memory}
use asterisk.PageMemory.Mapping.Maps.{Mapped, vmm_map_memory-Mapped}
use asterisk.PageMemory.Booted.{zeros, booted, zeros-IsBytes, first_frame}
use asterisk.PageMemory.Ownership.{started, acquired, released, Owned, History-Owned}

History-Owned_example : Owned 65536 (set_pageframe_used booted 4096) (0x1000000 ∷ [])
History-Owned_example = History-Owned zeros 65536 zeros-IsBytes (acquired started first_frame)

History-Owned_released :
    Owned 65536 (vmm_release_page_frame_4k (set_pageframe_used booted 4096) 0x1000000) []
History-Owned_released =
    History-Owned zeros 65536 zeros-IsBytes (released 0x1000000 (acquired started first_frame) refl)

-- A process with the pages 0x80000 and 0x80002 in use, on the machine after its start.
abbrev process_pages : Bitmap
process_pages i = if i == 0x10000 then 5 else 0

abbrev paging : Paging
paging = record { frames = booted; entries = λ p i. 0; cr3 = 0xC01000 }

two_pages : find_adjacent process_pages 2 0x80000 100 0 0 ≡ some 0x80003000
unfolding find_adjacent is_pageframe_used
two_pages = refl

one_page : find_adjacent process_pages 1 0x80000 100 0 0 ≡ some 0x80001000
unfolding find_adjacent is_pageframe_used
one_page = refl

process_pages-IsBytes : IsBytes process_pages
process_pages-IsBytes i = if_both (λ x. x < 256) (i == 0x10000) (omega arith) (omega arith)

vmm_map_memory-Mapped_example :
    Mapped process_pages paging 0x80000000 2
      (vmm_map_memory process_pages paging 0x80000000 (0x1000000 ∷ 0x1001000 ∷ []) 2 true)
vmm_map_memory-Mapped_example =
    vmm_map_memory-Mapped process_pages paging 0x80000000 (0x1000000 ∷ 0x1001000 ∷ []) 1 true
      process_pages-IsBytes (omega arith)
