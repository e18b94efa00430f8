-- ===== src/SharedMemory/Ownership.antt =====
-- Sequences of the calls of kernel/sharedmemory.c, and who holds the page frames.
use asterisk.Base.{ℕ, ◌≡◌, subst, List, [], ◌∷◌, ◌++◌, Option, none, some, ℤ}
use asterisk.SharedMemory.Newly.{newly}
use asterisk.PageMemory.{Bitmap, ram_as_4k_pages, vmm_acquire_page_frame_4k}
use asterisk.PageMemory.Ownership.{acquired-Owned}
use asterisk.SharedMemory.{
  State, returned, object_at, with_frames, unmap_each, process_shared_mapped_list,
  sharedmemory_create, sharedmemory_unlink, sharedmemory_ftruncate, sharedmemory_mmap,
  sharedmemory_unmap_if_exists, sharedmemory_unmap_for_process_all,
}
use asterisk.SharedMemory.Kept.{Kept, After, create-Kept, unlink-Kept, unmap_if_exists-Kept}
use asterisk.SharedMemory.Growth.{ftruncate-Kept, mmap-Kept, Mapped}

-- What may happen from a state on: the calls that return, and page frames that somebody else
-- acquires; and the page frames that others hold then. They grow by a frame that is acquired, and
-- by just those that are in use after a mapping and were not before, which are the page tables that
-- it took. kmalloc returns an address where there is no object.
pub data Run (s₀ : State) (others₀ : List ℕ) : State → List ℕ → Type 0 where
  started : Run s₀ others₀ s₀ others₀
  created :
      {s s' : State} {others : List ℕ} {result : Option ℕ} (address : ℕ) (name : List ℕ)
      → Run s₀ others₀ s others
      → object_at s.g_shm_list address ≡ none
      → sharedmemory_create s address name ≡ returned (result, s')
      → Run s₀ others₀ s' others
  unlinked :
      {s s' : State} {others : List ℕ} {result : ℤ} (p : ℕ)
      → Run s₀ others₀ s others
      → sharedmemory_unlink s p ≡ returned (result, s')
      → Run s₀ others₀ s' others
  truncated :
      {s s' : State} {others : List ℕ} {result : ℤ} (p : ℕ) (length : ℤ)
      → Run s₀ others₀ s others
      → sharedmemory_ftruncate s p length ≡ returned (result, s')
      → Run s₀ others₀ s' others
  mapped :
      {s s' : State} {others : List ℕ} {pages' : Bitmap} {result : Option ℕ} (pages : Bitmap)
      (current p : ℕ)
      → Run s₀ others₀ s others
      → sharedmemory_mmap s pages current p ≡ returned (result, (pages', s'))
      → Run s₀ others₀ s' (newly s.paging.frames s'.paging.frames ram_as_4k_pages ++ others)
  unmapped :
      {s : State} {others : List ℕ} (process address : ℕ)
      → Run s₀ others₀ s others
      → Run s₀ others₀ (sharedmemory_unmap_if_exists s process address).1 others
  left :
      {s : State} {others : List ℕ} (process : ℕ)
      → Run s₀ others₀ s others
      → Run s₀ others₀ (sharedmemory_unmap_for_process_all s process) others
  acquired :
      {s : State} {others : List ℕ} {a : ℕ} {frames' : Bitmap}
      → Run s₀ others₀ s others
      → vmm_acquire_page_frame_4k s.paging.frames ≡ some (a, frames')
      → Run s₀ others₀ (with_frames s frames') (a ∷ others)

module _ (high_mem : ℕ) (others : List ℕ) where
  unmap_each-Kept :
      (s : State) (process : ℕ) (addresses : List ℕ)
      → Kept high_mem others s
      → Kept high_mem others (unmap_each s process addresses)
  unfolding unmap_each
  unmap_each-Kept s process [] kept = kept
  unmap_each-Kept s process (a ∷ rest) kept =
      unmap_each-Kept (sharedmemory_unmap_if_exists s process a).1 process rest
        (unmap_if_exists-Kept high_mem others s kept process a)

  unmap_for_process_all-Kept :
      (s : State) (process : ℕ)
      → Kept high_mem others s
      → Kept high_mem others (sharedmemory_unmap_for_process_all s process)
  unfolding sharedmemory_unmap_for_process_all
  unmap_for_process_all-Kept s process kept =
      unmap_each-Kept s process (process_shared_mapped_list s.g_shm_list process) kept

-- Whatever happens, of the calls that return but sharedmemory_destroy_by_name and of acquisitions
-- by others, from a state in which the page frames in use are just those that others hold and those
-- of the objects, each held once, in which no pointer stands for two objects, and in which every
-- object that is marked is mapped: this stays so. What the others hold grows by each page frame
-- that they acquire and, for the page tables, by just those that are in use after a mapping and
-- were not before, and none of it is ever released.
pub Run-Kept :
    (high_mem : ℕ) {s₀ : State} {others₀ : List ℕ} {s : State} {others : List ℕ}
    → Kept high_mem others₀ s₀
    → Run s₀ others₀ s others
    → Kept high_mem others s
Run-Kept high_mem kept started = kept
Run-Kept high_mem kept (created {s = s} {others = others} address name run free e) =
    subst (After (Kept high_mem others)) e
      (create-Kept high_mem others s (Run-Kept high_mem kept run) address name free)
Run-Kept high_mem kept (unlinked {s = s} {others = others} p run e) =
    subst (After (Kept high_mem others)) e
      (unlink-Kept high_mem others s (Run-Kept high_mem kept run) p)
Run-Kept high_mem kept (truncated {s = s} {others = others} p length run e) =
    subst (After (Kept high_mem others)) e
      (ftruncate-Kept high_mem others s (Run-Kept high_mem kept run) p length)
Run-Kept high_mem kept (mapped {s = s} {others = others} pages current p run e) =
    let k = Run-Kept high_mem kept run in
    subst (Mapped high_mem others s k) e (mmap-Kept high_mem others s k pages current p)
Run-Kept high_mem kept (unmapped {s = s} {others = others} process address run) =
    unmap_if_exists-Kept high_mem others s (Run-Kept high_mem kept run) process address
Run-Kept high_mem kept (left {s = s} {others = others} process run) =
    unmap_for_process_all-Kept high_mem others s process (Run-Kept high_mem kept run)
Run-Kept high_mem kept (acquired run e) =
    let k = Run-Kept high_mem kept run in
    record { frames = acquired-Owned high_mem k.frames e; needed = k.needed; apart = k.apart }
