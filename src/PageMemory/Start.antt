-- ===== src/PageMemory/Start.antt =====
-- The bitmap of page frames after `vmm_initialize` of kernel/vmm.c.
use asterisk.Base.{
  ℕ, zero, suc, ◌*◌, ◌/◌, ◌%◌, ◌<◌, ◌≡◌, ◌∙◌, inl, inr, refl, ap, arith, Bool, Bool-cases, true,
  false, ◌&&◌, ◌||◌, ltb, leb, ◌==◌, if_both,
}
use asterisk.PageMemory.{
  Bitmap, is_pageframe_used, total_page_count, fill_bytes, reserve, vmm_initialize, ram_as_4k_pages,
  page_index_4k, reserved_area,
}
use asterisk.PageMemory.Bytes.{bit-full, bit-none}
use asterisk.PageMemory.Frames.{IsBytes, used-set, set-IsBytes}

-- The page frames that are the kernel's, and those that the machine has not.
abbrev pub unavailable : (high_mem page : ℕ) → Bool
unavailable high_mem page =
    ltb page (page_index_4k reserved_area) || leb (8 * (total_page_count high_mem / 8)) page

reserve-IsBytes : (m : Bitmap) (n : ℕ) → IsBytes m → IsBytes (reserve m n)
unfolding reserve
reserve-IsBytes m zero bytes = bytes
reserve-IsBytes m (suc n) bytes = set-IsBytes (reserve m n) (reserve-IsBytes m n bytes) n

one_more : (q n : ℕ) (b : Bool) → ((q == n) || (ltb q n || b)) ≡ (ltb q (suc n) || b)
one_more q n b = ground arith

used-reserve :
    (m : Bitmap) (n q : ℕ)
    → IsBytes m
    → is_pageframe_used (reserve m n) q ≡ (ltb q n || is_pageframe_used m q)
unfolding reserve
used-reserve m zero q bytes = let none_yet : ltb q 0 ≡ false = ground arith in rw none_yet refl
used-reserve m (suc n) q bytes =
    used-set (reserve m n) (reserve-IsBytes m n bytes) n q
    ∙ (ap (λ b. (q == n) || b) (used-reserve m n q bytes) ∙ one_more q n (is_pageframe_used m q))

fill_bytes-IsBytes :
    (m : Bitmap) (first last byte : ℕ)
    → byte < 256
    → IsBytes m
    → IsBytes (fill_bytes m first last byte)
fill_bytes-IsBytes m first last byte small bytes i =
    if_both (λ x. x < 256) (leb first i && ltb i last) small (bytes i)

-- The two loops that fill the bitmap.
existing : Bitmap → ℕ → Bitmap
existing m total = fill_bytes (fill_bytes m 0 (total / 8) 0) (total / 8) (ram_as_4k_pages / 8) 0xFF

used-existing :
    (m : Bitmap) (total q : ℕ)
    → q < ram_as_4k_pages
    → is_pageframe_used (existing m total) q ≡ leb (8 * (total / 8)) q
unfolding is_pageframe_used existing
used-existing m total q within = elim (Bool-cases (leb (total / 8) (q / 8))) [
  | inl e ↦
      let there : ltb (q / 8) (0x100000 / 8) ≡ true = ground arith in
      let out : leb (8 * (total / 8)) q ≡ true = ground arith in
      rw (e, there, out) (bit-full (q % 8) (omega arith))
  | inr e ↦
      let there : ltb (q / 8) (total / 8) ≡ true = ground arith in
      let out : leb (8 * (total / 8)) q ≡ false = ground arith in
      let first : leb 0 (q / 8) ≡ true = ground arith in
      rw (e, first, there, out) (bit-none (q % 8) (omega arith))
]

module _ (m : Bitmap) (high_mem : ℕ) (bytes : IsBytes m) where
  existing-IsBytes : IsBytes (existing m (total_page_count high_mem))
  unfolding existing
  existing-IsBytes =
      fill_bytes-IsBytes _ (total_page_count high_mem / 8) (0x100000 / 8) 0xFF (omega arith)
        (fill_bytes-IsBytes m 0 (total_page_count high_mem / 8) 0 (omega arith) bytes)

  pub vmm_initialize-IsBytes : IsBytes (vmm_initialize m high_mem)
  unfolding vmm_initialize existing
  vmm_initialize-IsBytes =
      reserve-IsBytes (existing m (total_page_count high_mem)) 4096 existing-IsBytes

  pub used-vmm_initialize :
      (q : ℕ)
      → q < ram_as_4k_pages
      → is_pageframe_used (vmm_initialize m high_mem) q ≡ unavailable high_mem q
  unfolding vmm_initialize existing
  used-vmm_initialize q within =
      used-reserve (existing m (total_page_count high_mem)) 4096 q existing-IsBytes
      ∙ ap (λ b. ltb q 4096 || b) (used-existing m (total_page_count high_mem) q within)
