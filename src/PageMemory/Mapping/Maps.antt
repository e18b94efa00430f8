-- ===== src/PageMemory/Mapping/Maps.antt =====
-- The mapping of pages in a process by kernel/vmm.c, as a whole.
use asterisk.Base.{
  ℕ, suc, ◌+◌, ◌-◌, ◌*◌, ◌/◌, ◌%◌, ◌^◌, ◌≤◌, ◌<◌, ◌≡◌, ◌∙◌, inl, inr, sym, refl, ap, subst, arith,
  Bool, Option-cases, true, false, not, ◌&&◌, ◌||◌, Option, none, some, List,
}
use asterisk.KernelHeap.{pagesize_4k}
use asterisk.PageMemory.{Bitmap, is_pageframe_used, page_index_4k}
use asterisk.PageMemory.Frames.{IsBytes}
use asterisk.PageMemory.Tables.{Paging, Result, returns, panics}
use asterisk.PageMemory.Mapping.{
  memory_end, map_pages, unmap_pages, vmm_map_memory, vmm_unmap_memory, find_adjacent,
}
use asterisk.PageMemory.Mapping.Runs.{FirstRun, AllFree, find_adjacent-FirstRun}
use asterisk.PageMemory.Mapping.Marks.{NoFrames, in_run, Marked, map_pages-Marked, unmap_pages-used}

-- Unmapping the run says TRUE and gives the bitmap that was there before.
abbrev pub Undone : (before after : Bitmap) (s : Paging) (v count : ℕ) → Type 0
Undone before after s v count =
    let (result, (m, _)) = vmm_unmap_memory after s v count in
    (result ≡ true) × ((q : ℕ) → is_pageframe_used m q ≡ is_pageframe_used before q)

-- What a mapping of `count` pages from `start` on leaves.
abbrev pub Mapped :
    Bitmap → Paging → (start count : ℕ) → Result (Option ℕ × (Bitmap × Paging)) → Type 0
Mapped m s start count (panics s') = NoFrames s'
Mapped m s start count (returns (none, (m', s'))) =
    FirstRun m (page_index_4k start) (page_index_4k memory_end) count none × (m' ≡ m) × (s' ≡ s)
Mapped m s start count (returns (some v, (m', s'))) =
    FirstRun m (page_index_4k start) (page_index_4k memory_end) count (some v)
    × ((q : ℕ)
        → is_pageframe_used m' q ≡ (in_run (page_index_4k v) count q || is_pageframe_used m q))
    × Undone m m' s' v count

unmap-first :
    (m : Bitmap) (s : Paging) (p count : ℕ)
    → is_pageframe_used m p ≡ true
    → (unmap_pages m s p (suc count)).0 ≡ true
unfolding unmap_pages
unmap-first m s p count e = rw (e, unmap_pages) refl

restored : (r b : Bool) → (r ≡ true → b ≡ false) → (not r && (r || b)) ≡ b
restored r b h = ground arith

module _ (m : Bitmap) (s : Paging) (p count : ℕ) (bytes : IsBytes m)
    (low : p + suc count ≤ page_index_4k memory_end) (free : AllFree m p (suc count)) where
  free_run : (q : ℕ) → in_run p (suc count) q ≡ true → is_pageframe_used m q ≡ false
  free_run q h =
      let (lo, hi) = bounds p q (suc count) h in
      let e : p + (q - p) ≡ q = omega (arith, lo) in
      sym (ap (is_pageframe_used m) e) ∙ free (q - p) (omega (arith, lo, hi))
    where
      bounds : (p q n : ℕ) → in_run p n q ≡ true → (p ≤ q) × (q < p + n)
      bounds p q n h = ground arith

  Marked-Undone :
      (m' : Bitmap) (s' : Paging)
      → Marked m p (suc count) (returns (m', s'))
      → Undone m m' s' (p * pagesize_4k) (suc count)
  unfolding vmm_unmap_memory
  Marked-Undone m' s' (bytes', marked) =
      let start : p * 4096 / 4096 * 4096 / 4096 ≡ p = omega arith in
      let pages : (p + suc count) % 2 ^ 32 - p ≡ suc count = omega (arith, low) in
      let first : is_pageframe_used m' p ≡ true =
        marked p ∙ in_front p count (is_pageframe_used m p) in
      rw (start, pages)
        (
          unmap-first m' s' p count first,
          λ q.
              unmap_pages-used m' s' p (suc count) q bytes' (omega (arith, low))
              ∙ (ap (λ b. not (in_run p (suc count) q) && b) (marked q)
                  ∙ restored (in_run p (suc count) q) (is_pageframe_used m q) (free_run q)),
        )
    where
      in_front : (p n : ℕ) (b : Bool) → (in_run p (suc n) p || b) ≡ true
      in_front p n b = ground arith

Marked-Mapped :
    (m : Bitmap) (s : Paging) (start count v : ℕ)
    → IsBytes m
    → (run : FirstRun m (page_index_4k start) (page_index_4k memory_end) (suc count) (some v))
    → (r : Result (Bitmap × Paging)) → Marked m run.0 (suc count) r
    → Mapped m s start
        (suc count)
        (elim r [ panics s' ↦ panics s' | returns after ↦ returns (some v, after) ])
Marked-Mapped m s start count v bytes (p, at, lo, hi, free, before) (panics s') full = full
Marked-Mapped m s start count v bytes (p, at, lo, hi, free, before) (returns (m', s'))
      (bytes', marked) =
    let page : p ≡ v / 2 ^ 12 = omega (arith, at) in
    (
      (p, at, lo, hi, free, before),
      λ q. marked q ∙ ap (λ i. in_run i (suc count) q || is_pageframe_used m q) page,
      subst (λ a. Undone m m' s' a (suc count)) (sym at)
          (Marked-Undone m s p count bytes hi free m' s' (bytes', marked)),
    )

-- Mapping of at least one page, with a start not beyond MEMORY_END, takes the first run of free
-- pages there is behind the start and marks it and nothing else, so that unmapping restores the
-- bitmap; without such a run it returns null and changes nothing; and the kernel panics only if no
-- page frame is free.
pub vmm_map_memory-Mapped :
    (m : Bitmap) (s : Paging) (start : ℕ) (p_addresses : List ℕ) (count : ℕ) (own : Bool)
    → IsBytes m
    → start ≤ memory_end
    → Mapped m s start (suc count) (vmm_map_memory m s start p_addresses (suc count) own)
unfolding vmm_map_memory
vmm_map_memory-Mapped m s start ps count own bytes low =
    let first = start / 2 ^ 12 in
    let search =
      find_adjacent-FirstRun m first (suc count) (page_index_4k memory_end - first) first
        (page_index_4k memory_end) first 0 0 (omega arith) (omega (arith, low)) (omega arith)
        (omega arith) (λ h. absurd (omega arith)) (λ j h. absurd (omega arith))
        (λ q l h. absurd (omega (arith, l, h))) in
    elim (Option-cases (find_adjacent m (suc count) first (page_index_4k memory_end - first) 0 0)) [
      | inl e ↦
          rw (e, vmm_map_memory)
            (subst (FirstRun m first (page_index_4k memory_end) (suc count)) e search, refl, refl)
      | inr (v, e) ↦
          rw (e, vmm_map_memory)
            (let run = subst (FirstRun m first (page_index_4k memory_end) (suc count)) e search in
              Marked-Mapped m s start count v bytes run (map_pages m s v ps (suc count) own)
                (map_pages-Marked m s run.0 ps (suc count) own v bytes run.1))
    ]
