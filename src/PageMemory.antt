-- ===== src/PageMemory.antt =====
-- kernel/vmm.c, the bitmaps of pages: the page frames of the machine, and the virtual pages of a
-- process. A bitmap is a function from the place of a byte to the byte.
pub mod Bytes
pub mod Frames
pub mod Search
pub mod Start
pub mod Ownership
pub mod Booted
pub mod Tables
pub mod Mapping
mod Examples
use asterisk.Base.{
  ℕ, zero, suc, ◌+◌, ◌-◌, ◌*◌, ◌/◌, ◌%◌, ◌^◌, Bool, true, false, not, ◌&&◌, Option, none, some, ltb,
  leb, ◌==◌, if◌then◌else◌,
}
use asterisk.KernelHeap.{pagesize_4k}
use Prim.Native.Nat.{bit_and, bit_or}

-- kernel/common.h
abbrev pub ram_as_4k_pages : ℕ
ram_as_4k_pages = 0x100000

abbrev pub reserved_area : ℕ
reserved_area = 0x01000000

abbrev pub page_index_4k : ℕ → ℕ
page_index_4k address = address / 2 ^ 12

abbrev pub Bitmap : Type 0
Bitmap = ℕ → ℕ

abbrev put : Bitmap → ℕ → ℕ → Bitmap
put bitmap i x = λ j. if j == i then x else bitmap j

-- The macros of kernel/vmm.h
unfoldable pub set_pageframe_used : Bitmap → ℕ → Bitmap
set_pageframe_used bitmap page_index =
    put bitmap (page_index / 8) (bit_or (bitmap (page_index / 8)) (2 ^ (page_index % 8)))

unfoldable pub set_pageframe_unused : Bitmap → ℕ → Bitmap
set_pageframe_unused bitmap p_addr =
    let page_index = p_addr / pagesize_4k in
    put bitmap (page_index / 8) (bit_and (bitmap (page_index / 8)) (255 - 2 ^ (page_index % 8)))

unfoldable pub is_pageframe_used : Bitmap → ℕ → Bool
is_pageframe_used bitmap page_index =
    not (bit_and (bitmap (page_index / 8)) (2 ^ (page_index % 8)) == 0)

-- The inner loop of `vmm_acquire_page_frame_4k` over the `left` bits from `bit` on.
abbrev pub clear_bit : (byte bit left : ℕ) → Option ℕ
clear_bit byte bit zero = none
clear_bit byte bit (suc left) = elim (bit_and byte (2 ^ bit) == 0) [
  | true ↦ some bit
  | false ↦ clear_bit byte (suc bit) left
]

-- Its outer loop, over the `left` bytes from `byte` on.
unfoldable pub clear_page : Bitmap → (byte left : ℕ) → Option ℕ
clear_page bitmap byte zero = none
clear_page bitmap byte (suc left) = elim (bitmap byte == 0xFF) [
  | true ↦ clear_page bitmap (suc byte) left
  | false ↦ elim (clear_bit (bitmap byte) 0 8) [
    | some bit ↦ some (8 * byte + bit)
    | none ↦ clear_page bitmap (suc byte) left
  ]
]

-- `none` is the panic "Memory is full!".
unfoldable pub vmm_acquire_page_frame_4k : Bitmap → Option (ℕ × Bitmap)
vmm_acquire_page_frame_4k bitmap = elim (clear_page bitmap 0 (ram_as_4k_pages / 8)) [
  | none ↦ none
  | some page ↦ some (page * pagesize_4k, set_pageframe_used bitmap page)
]

unfoldable pub vmm_release_page_frame_4k : Bitmap → ℕ → Bitmap
vmm_release_page_frame_4k bitmap p_addr = set_pageframe_unused bitmap p_addr

-- `high_mem` is in KB.
unfoldable pub total_page_count : ℕ → ℕ
total_page_count high_mem = high_mem * 1024 % 2 ^ 32 / pagesize_4k

abbrev pub fill_bytes : Bitmap → (first last byte : ℕ) → Bitmap
fill_bytes bitmap first last byte = λ i. if leb first i && ltb i last then byte else bitmap i

unfoldable pub reserve : Bitmap → ℕ → Bitmap
reserve bitmap zero = bitmap
reserve bitmap (suc page) = set_pageframe_used (reserve bitmap page) page

-- What `vmm_initialize` does to the bitmap.
unfoldable pub vmm_initialize : Bitmap → ℕ → Bitmap
vmm_initialize bitmap high_mem =
    let total = total_page_count high_mem in
    let available = fill_bytes bitmap 0 (total / 8) 0 in
    let existing = fill_bytes available (total / 8) (ram_as_4k_pages / 8) 0xFF in
    reserve existing (page_index_4k reserved_area)

-- The loop of `vmm_get_used_page_count` over the first pages.
unfoldable pub used_pages : Bitmap → ℕ → ℕ
used_pages bitmap zero = 0
used_pages bitmap (suc i) = used_pages bitmap i + (if is_pageframe_used bitmap i then 1 else 0)
