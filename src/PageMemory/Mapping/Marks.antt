-- ===== src/PageMemory/Mapping/Marks.antt =====
-- What mapping and unmapping in kernel/vmm.c do to the bitmap of a process.
use asterisk.Base.{
  ℕ, zero, suc, ◌+◌, ◌*◌, ◌/◌, ◌%◌, ◌^◌, ◌≤◌, ◌<◌, ◌≡◌, ◌∙◌, ◌⊎◌, inl, inr, refl, ap, subst, arith,
  Bool, Bool-cases, Option-cases, true, false, not, ◌&&◌, ◌||◌, ltb, leb, none, some, ◌==◌, ==→eq,
  List, get_or, drop,
}
use asterisk.KernelHeap.{pagesize_4k}
use asterisk.PageMemory.{
  Bitmap, is_pageframe_used, set_pageframe_used, set_pageframe_unused, ram_as_4k_pages,
  vmm_acquire_page_frame_4k, clear_page,
}
use asterisk.PageMemory.Frames.{IsBytes, used-set, used-unset, set-IsBytes, unset-IsBytes}
use asterisk.PageMemory.Search.{Lowest, clear_page-Lowest}
use asterisk.PageMemory.Tables.{
  Paging, Result, returns, panics, with_table, vmm_add_page_to_pd, vmm_remove_page_from_pd, has_pg,
  pg_present, directory, frame_of,
}
use asterisk.PageMemory.Mapping.{map_pages, own_flags, unmap_pages}

-- No page frame of the machine is free.
abbrev pub NoFrames : Paging → Type 0
NoFrames s = (q : ℕ) → q < ram_as_4k_pages → is_pageframe_used s.frames q ≡ true

Result-cases {ℓ} :
    {A : Type ℓ} (r : Result A) → ((a : A) × (r ≡ returns a)) ⊎ ((s : Paging) × (r ≡ panics s))
Result-cases (returns a) = inl (a, refl)
Result-cases (panics s) = inr (s, refl)

-- A panic comes of a machine without free page frames.
abbrev JustPanics {ℓ} : {A : Type ℓ} → Result A → Type 0
JustPanics (returns a) = true ≡ true
JustPanics (panics s) = NoFrames s

acquire-NoFrames : (s : Paging) → vmm_acquire_page_frame_4k s.frames ≡ none → NoFrames s
unfolding vmm_acquire_page_frame_4k
acquire-NoFrames s e q h = elim (Option-cases (clear_page s.frames 0 131072)) [
  | inl full ↦
      subst (Lowest (is_pageframe_used s.frames) 0 0x100000) full
        (clear_page-Lowest s.frames 0 131072) q (omega arith) h
  | inr (page, found) ↦
      let same : vmm_acquire_page_frame_4k s.frames
          ≡ some (page * 4096, set_pageframe_used s.frames page) =
        rw (found, vmm_acquire_page_frame_4k) refl in
      absurd (cc)
]

with_table-JustPanics : (s : Paging) (v_addr flags : ℕ) → JustPanics (with_table s v_addr flags)
unfolding with_table
with_table-JustPanics s v_addr flags =
    elim (Bool-cases (has_pg (s.entries (directory s v_addr) (v_addr / 2 ^ 22)) pg_present)) [
      | inl e ↦ rw (e, with_table, JustPanics) refl
      | inr e ↦ elim (Option-cases (vmm_acquire_page_frame_4k s.frames)) [
        | inl full ↦ rw (e, full, with_table, JustPanics) (acquire-NoFrames s full)
        | inr ((table, frames), got) ↦ rw (e, got, with_table, JustPanics) refl
      ]
    ]

vmm_add_page_to_pd-JustPanics :
    (s : Paging) (v p flags : ℕ) → JustPanics (vmm_add_page_to_pd s v p flags)
unfolding vmm_add_page_to_pd
vmm_add_page_to_pd-JustPanics s v p flags = elim (Result-cases (with_table s v flags)) [
  | inl (s', e) ↦ rw (e, vmm_add_page_to_pd, JustPanics) refl
  | inr (s', e) ↦
      rw (e, vmm_add_page_to_pd, JustPanics) (subst JustPanics e (with_table-JustPanics s v flags))
]

-- The pages of a run
abbrev pub in_run : (first count page : ℕ) → Bool
in_run first count page = leb first page && ltb page (first + count)

pub one_more :
    (p count q : ℕ) (b : Bool)
    → (in_run (suc p) count q || ((q == p) || b)) ≡ (in_run p (suc count) q || b)
one_more p count q b = ground arith

-- A run has been marked, or the machine is out of page frames.
abbrev pub Marked : Bitmap → (first count : ℕ) → Result (Bitmap × Paging) → Type 0
Marked m first count (panics s) = NoFrames s
Marked m first count (returns (m', s)) =
    IsBytes m'
    × ((q : ℕ) → is_pageframe_used m' q ≡ (in_run first count q || is_pageframe_used m q))

pub map_pages-Marked :
    (m : Bitmap) (s : Paging) (p : ℕ) (p_addresses : List ℕ) (count : ℕ) (own : Bool) (v : ℕ)
    → IsBytes m
    → v ≡ p * pagesize_4k
    → Marked m p count (map_pages m s v p_addresses count own)
unfolding map_pages
map_pages-Marked m s p ps zero own v bytes ev = (bytes, λ q. none_in p q (is_pageframe_used m q))
  where
    none_in : (p q : ℕ) (b : Bool) → b ≡ (in_run p 0 q || b)
    none_in p q b = ground arith
map_pages-Marked m s p ps (suc count) own v bytes ev =
    let adding = vmm_add_page_to_pd-JustPanics s v (frame_of (get_or ps 0 0)) (own_flags own) in
    elim (Result-cases (vmm_add_page_to_pd s v (frame_of (get_or ps 0 0)) (own_flags own))) [
      | inr (s', e) ↦ rw (e, map_pages) (subst JustPanics e adding)
      | inl ((said, s'), e) ↦
          let page : v / 2 ^ 12 ≡ p = omega (arith, ev) in
          let m' = set_pageframe_used m p in
          rw (e, map_pages, page)
            (Marked-more m p count (map_pages m' s' (v + 4096) (drop 1 ps) count own) bytes (
              map_pages-Marked m' s' (suc p) (drop 1 ps) count own (v + 4096)
                (set-IsBytes m bytes p) (omega (arith, ev))))
    ]
  where
    Marked-more :
        (m : Bitmap) (p count : ℕ) (r : Result (Bitmap × Paging))
        → IsBytes m
        → Marked (set_pageframe_used m p) (suc p) count r
        → Marked m p (suc count) r
    Marked-more m p count (panics s) bytes full = full
    Marked-more m p count (returns (m', s)) bytes (bytes', marked) = (
      bytes',
      λ q.
          marked q
          ∙ (ap (λ b. in_run (suc p) count q || b) (used-set m bytes p q)
              ∙ one_more p count q (is_pageframe_used m q)),
    )

-- Unmapping marks the pages of a run as free.
pub unmap_pages-used :
    (m : Bitmap) (s : Paging) (p count q : ℕ)
    → IsBytes m
    → p + count ≤ ram_as_4k_pages
    → is_pageframe_used (unmap_pages m s p count).1.0 q
      ≡ (not (in_run p count q) && is_pageframe_used m q)
unfolding unmap_pages
unmap_pages-used m s p zero q bytes within = none_in p q (is_pageframe_used m q)
  where
    none_in : (p q : ℕ) (b : Bool) → b ≡ (not (in_run p 0 q) && b)
    none_in p q b = ground arith
unmap_pages-used m s p (suc count) q bytes within = elim (Bool-cases (is_pageframe_used m p)) [
  | inl e ↦
      let v_addr = p * pagesize_4k % 2 ^ 32 in
      let page : v_addr / 4096 ≡ p = omega (arith, within) in
      let s' = (vmm_remove_page_from_pd s v_addr).1 in
      rw (e, unmap_pages)
        (unmap_pages-used (set_pageframe_unused m v_addr) s' (suc p) count q
            (unset-IsBytes m bytes v_addr) (omega (arith, within))
          ∙ (ap (λ b. not (in_run (suc p) count q) && b)
                (used-unset m bytes v_addr q ∙ ap (λ i. not (q == i) && is_pageframe_used m q) page)
              ∙ one_less p count q (is_pageframe_used m q)))
  | inr e ↦
      rw (e, unmap_pages)
        (unmap_pages-used m s (suc p) count q bytes (omega (arith, within))
          ∙ passed p count q (is_pageframe_used m q)
              (λ here. ap (is_pageframe_used m) (==→eq q p here) ∙ e))
]
  where
    passed :
        (p count q : ℕ) (b : Bool)
        → ((q == p) ≡ true → b ≡ false)
        → (not (in_run (suc p) count q) && b) ≡ (not (in_run p (suc count) q) && b)
    passed p count q b h = ground arith

    one_less :
        (p count q : ℕ) (b : Bool)
        → (not (in_run (suc p) count q) && (not (q == p) && b))
          ≡ (not (in_run p (suc count) q) && b)
    one_less p count q b = ground arith
