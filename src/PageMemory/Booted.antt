-- ===== src/PageMemory/Booted.antt =====
-- kernel/vmm.c: a machine of 64 megabytes after its start, and the page frame that it hands out
-- first.
use asterisk.Base.{
  ◌∙◌, sym, ap, subst, ◌≤◌, ◌<◌, ◌⊎◌, inl, inr, Option-cases, ℕ, ◌≡◌, refl, arith, true, false,
  some,
}
use asterisk.PageMemory.{
  Bitmap, vmm_initialize, vmm_acquire_page_frame_4k, clear_page, set_pageframe_used,
  total_page_count, is_pageframe_used,
}
use asterisk.PageMemory.Frames.{IsBytes}
use asterisk.PageMemory.Search.{Lowest, clear_page-Lowest}
use asterisk.PageMemory.Start.{unavailable, used-vmm_initialize}

abbrev pub zeros : Bitmap
zeros i = 0

abbrev pub booted : Bitmap
booted = vmm_initialize zeros 65536

pub zeros-IsBytes : IsBytes zeros
zeros-IsBytes i = omega arith

used_booted : (q : ℕ) → q < 0x100000 → is_pageframe_used booted q ≡ unavailable 65536 q
used_booted = used-vmm_initialize zeros 65536 zeros-IsBytes

-- The lowest page that is free is the first one behind the kernel's.
clear_page-booted : clear_page booted 0 131072 ≡ some 4096
unfolding total_page_count
clear_page-booted =
    let lowest = clear_page-Lowest booted 0 131072 in
    elim (Option-cases (clear_page booted 0 131072)) [
      | inl none_free ↦
          (let all = subst (Lowest (is_pageframe_used booted) 0 0x100000) none_free lowest in
            let used : unavailable 65536 4096 ≡ true =
              sym (used_booted 4096 (omega arith)) ∙ all 4096 (omega arith) (omega arith) in
            absurd (cc))
      | inr (page, found) ↦
          let (_, within, free, before) =
            subst (Lowest (is_pageframe_used booted) 0 0x100000) found lowest in
          let behind : 4096 ≤ page = not_kernel page (sym (used_booted page within) ∙ free) in
          let same : page ≡ 4096 = elim (le_or_lt page 4096) [
            | inl le ↦ omega (arith, behind, le)
            | inr lt ↦
                (let used : unavailable 65536 4096 ≡ true =
                    sym (used_booted 4096 (omega arith)) ∙ before 4096 (omega arith) lt in
                  absurd (cc))
          ] in
          found ∙ ap some same
    ]
  where
    le_or_lt : (a b : ℕ) → (a ≤ b) ⊎ (b < a)
    le_or_lt a b = ground arith

    not_kernel : (page : ℕ) → unavailable 65536 page ≡ false → 4096 ≤ page
    not_kernel page e = ground arith

pub first_frame :
    vmm_acquire_page_frame_4k booted ≡ some (0x1000000, set_pageframe_used booted 4096)
unfolding vmm_acquire_page_frame_4k
first_frame = rw (clear_page-booted, vmm_acquire_page_frame_4k) refl
