-- ===== src/SharedMemory/Growth.antt =====
-- The calls of kernel/sharedmemory.c that take page frames: ftruncate and mmap.
use asterisk.Base.{
  ℕ, zero, suc, ◌≡◌, sym, refl, arith, subst, Bool, Bool-cases, inl, inr, true, false, ◌&&◌,
  Option-cases, List, [], ◌∷◌, ◌++◌, append-nil, append_assoc, Option, some, ℤ, pos, negsuc, ltb,
  ◌==◌, length,
}
use asterisk.PageMemory.{Bitmap, ram_as_4k_pages}
use asterisk.SharedMemory.Newly.{newly, newly-Owned}
use asterisk.PageMemory.Ownership.{Owned}
use asterisk.PageMemory.Tables.{Paging, Result, returns, panics}
use asterisk.PageMemory.Mapping.{vmm_map_memory}
use asterisk.SharedMemory.{
  State, SharedMemory, MapInfo, Call, returned, faulted, panicked, object_at, is_unmapped,
  with_frames, changed, acquire_all, mapping, pointer, page_count_of, user_mmap_start,
  sharedmemory_ftruncate, sharedmemory_mmap,
}
use asterisk.SharedMemory.Counts.{one_if, Same-Owned}
use asterisk.SharedMemory.Frames.{acquire_all-Owned, vmm_map_memory-Grown, GrownMap}
use asterisk.SharedMemory.Objects.{total-change, Apart-change}
use asterisk.SharedMemory.Kept.{Kept, After, frames_of, idle, change-Same, at_own_address}

module _ (high_mem : ℕ) (others : List ℕ) (s : State) (kept : Kept high_mem others s) where
  pub ftruncate-Kept :
      (p : ℕ) (length : ℤ) → After (Kept high_mem others) (sharedmemory_ftruncate s p length)
  unfolding sharedmemory_ftruncate
  ftruncate-Kept p (negsuc n) = kept
  ftruncate-Kept p (pos zero) = kept
  ftruncate-Kept p (pos (suc n)) = elim (Option-cases (object_at s.g_shm_list p)) [
    | inl e ↦ rw (e, sharedmemory_ftruncate) refl
    | inr (o, e) ↦ elim (Bool-cases (o.node_length == 0)) [
      | inr f ↦ rw (e, sharedmemory_ftruncate, f) kept
      | inl f ↦ elim (Option-cases (acquire_all s.paging.frames (page_count_of (suc n)))) [
        | inl g ↦ rw (e, sharedmemory_ftruncate, f, g) refl
        | inr ((new, frames'), g) ↦
            rw (e, sharedmemory_ftruncate, f, g)
              (longer o new frames' (at_own_address high_mem others s kept p o e) g)
      ]
    ]
  ]
    where
      longer :
          (o : SharedMemory) (new : List ℕ) (frames' : Bitmap)
          → object_at s.g_shm_list o.address ≡ some o
          → acquire_all s.paging.frames (page_count_of (suc n)) ≡ some (new, frames')
          → Kept high_mem others (
              with_frames
                (changed s (record o {
                  node_length = suc n;
                  physical_address_list = o.physical_address_list ++ new;
                }))
                frames')
      longer o new frames' there g =
          let o' : SharedMemory = record o {
            node_length = suc n;
            physical_address_list = o.physical_address_list ++ new;
          } in
          record {
            frames =
                Same-Owned high_mem (change-Same new others s.g_shm_list o' o there refl)
                  (acquire_all-Owned high_mem (page_count_of (suc n)) kept.frames g);
            needed = omega (arith, kept.needed, total-change idle s.g_shm_list o' o there);
            apart = Apart-change s.g_shm_list o' kept.apart;
          }

  -- A mapping may take page frames for page tables: they count to the others'.
  abbrev pub Mapped : {A B : Type 0} → Call (A × (B × State)) → Type 0
  Mapped (returned (a, (b, s'))) =
      Kept high_mem (newly s.paging.frames s'.paging.frames ram_as_4k_pages ++ others) s'
  Mapped faulted = true ≡ true
  Mapped panicked = true ≡ true

  pub mmap-Kept : (pages : Bitmap) (current p : ℕ) → Mapped (sharedmemory_mmap s pages current p)
  unfolding sharedmemory_mmap
  mmap-Kept pages current p = elim (Option-cases (object_at s.g_shm_list p)) [
    | inl e ↦ rw (e, sharedmemory_mmap) refl
    | inr (o, e) ↦ elim (Bool-cases (ltb 0 (length o.physical_address_list))) [
      | inr f ↦ rw (e, sharedmemory_mmap, f) unmoved
      | inl f ↦
          rw (e, sharedmemory_mmap, f)
            (entered o (at_own_address high_mem others s kept p o e)
              (vmm_map_memory pages s.paging user_mmap_start o.physical_address_list
                (length o.physical_address_list) false)
              (vmm_map_memory-Grown high_mem (length o.physical_address_list) pages s.paging
                user_mmap_start o.physical_address_list false kept.frames))
    ]
  ]
    where
      unmoved : Kept high_mem (newly s.paging.frames s.paging.frames ram_as_4k_pages ++ others) s
      unmoved = record {
        frames =
            subst (Owned high_mem s.paging.frames)
              (sym (
                append_assoc (newly s.paging.frames s.paging.frames ram_as_4k_pages) others
                  (frames_of s.g_shm_list)))
              (newly-Owned high_mem s.paging.frames s.paging.frames []
                (others ++ frames_of s.g_shm_list) kept.frames kept.frames);
        needed = kept.needed;
        apart = kept.apart;
      }

      not_idle :
          (infos : List MapInfo) (info : MapInfo) (marked : Bool)
          → one_if (marked && is_unmapped (infos ++ (info ∷ []))) ≡ 0
      not_idle [] info true = refl
      not_idle [] info false = refl
      not_idle (i ∷ infos) info true = refl
      not_idle (i ∷ infos) info false = refl

      entered :
          (o : SharedMemory)
          → object_at s.g_shm_list o.address ≡ some o
          → (r : Result (Option ℕ × (Bitmap × Paging)))
          → GrownMap high_mem (others ++ frames_of s.g_shm_list) r
          → Mapped (elim r [
            | panics paging ↦ panicked
            | returns (result, (pages', paging)) ↦
                let o' = record o {
                  mmapped_list =
                      o.mmapped_list
                      ++ (mapping current (pointer result) (length o.physical_address_list) ∷ []);
                } in
                returned (result, (pages', record (changed s o') { paging = paging }))
          ])
      entered o there (panics paging) g = refl
      entered o there (returns (result, (pages', paging))) (tables, g) =
          let info = mapping current (pointer result) (length o.physical_address_list) in
          let o' : SharedMemory = record o { mmapped_list = o.mmapped_list ++ (info ∷ []) } in
          let active : idle o' ≡ 0 = not_idle o.mmapped_list info o.marked_unlink in
          let taken = newly s.paging.frames paging.frames ram_as_4k_pages in
          record {
            frames =
                Same-Owned high_mem
                  (change-Same [] (taken ++ others) s.g_shm_list o' o there
                    (sym (append-nil o.physical_address_list)))
                  (subst (Owned high_mem paging.frames)
                    (sym (append_assoc taken others (frames_of s.g_shm_list)))
                    (newly-Owned high_mem s.paging.frames paging.frames tables
                      (others ++ frames_of s.g_shm_list) kept.frames g));
            needed = omega (arith, active, kept.needed, total-change idle s.g_shm_list o' o there);
            apart = Apart-change s.g_shm_list o' kept.apart;
          }
