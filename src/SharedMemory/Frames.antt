-- ===== src/SharedMemory/Frames.antt =====
-- What the loops of kernel/sharedmemory.c and the mapping of pages do to the page frames that are
-- held.
use asterisk.Base.{
  ℕ, zero, suc, ◌+◌, ◌-◌, ◌/◌, ◌^◌, ◌≡◌, sym, refl, arith, subst, Bool, Bool-cases, inl, inr, true,
  Option-cases, List, [], ◌∷◌, ◌++◌, append_assoc, none, some, get_or, drop, if_both,
}
use asterisk.PageMemory.{Bitmap, vmm_acquire_page_frame_4k, set_pageframe_used, page_index_4k}
use asterisk.KernelHeap.{pagesize_4k}
use asterisk.PageMemory.Ownership.{Owned, acquired-Owned}
use asterisk.PageMemory.Tables.{
  Paging, Result, returns, panics, with_table, with_entry, vmm_add_page_to_pd,
  vmm_sync_all_from_kernel, has_pg, directory, pg_present, frame_of,
}
use asterisk.PageMemory.Mapping.{map_pages, vmm_map_memory, find_adjacent, own_flags, memory_end}
use asterisk.SharedMemory.{release_all, acquire_all}
use asterisk.SharedMemory.Counts.{Same, occurrences-append, Same-Owned, release_first-Owned}

module _ (high_mem : ℕ) where
  pub release_all-Owned :
      (fs : List ℕ) {m : Bitmap} {rest : List ℕ}
      → Owned high_mem m (fs ++ rest)
      → Owned high_mem (release_all m fs) rest
  unfolding release_all
  release_all-Owned [] o = o
  release_all-Owned (f ∷ fs) o = release_all-Owned fs (release_first-Owned high_mem f o)

  pub acquire_all-Owned :
      (count : ℕ) {m m' : Bitmap} {rest fs : List ℕ}
      → Owned high_mem m rest
      → acquire_all m count ≡ some (fs, m')
      → Owned high_mem m' (fs ++ rest)
  unfolding acquire_all
  acquire_all-Owned zero {m = m} {m' = m'} {rest = rest} {fs = fs} o e =
      let same : ◌≡◌ {A = List ℕ × Bitmap} ([], m) (fs, m') = cc in
      subst (λ r. Owned high_mem r.1 (r.0 ++ rest)) same o
  acquire_all-Owned (suc count) {m = m} {m' = m'} {rest = rest} {fs = fs} o e =
      elim (Option-cases (vmm_acquire_page_frame_4k m)) [
        | inl full ↦
            (let same : acquire_all m (suc count) ≡ none = rw (full, acquire_all) refl in
              absurd (cc))
        | inr ((a, m₁), got) ↦ elim (Option-cases (acquire_all m₁ count)) [
          | inl full ↦
              (let same : acquire_all m (suc count) ≡ none = rw (got, acquire_all, full) refl in
                absurd (cc))
          | inr ((fs₁, m₂), more) ↦
              (let whole : acquire_all m (suc count) ≡ some (a ∷ fs₁, m₂) =
                  rw (got, acquire_all, more) refl in
                let same : ◌≡◌ {A = List ℕ × Bitmap} (a ∷ fs₁, m₂) (fs, m') = cc in
                subst (λ r. Owned high_mem r.1 (r.0 ++ rest)) same
                  (Same-Owned high_mem (in_front a fs₁)
                    (acquire_all-Owned count (acquired-Owned high_mem o got) more)))
        ]
      ]
    where
      in_front : (a : ℕ) (fs₁ : List ℕ) → Same (fs₁ ++ (a ∷ rest)) (a ∷ fs₁ ++ rest)
      in_front a fs₁ x =
          omega (arith, occurrences-append fs₁ (a ∷ rest) x, occurrences-append fs₁ rest x)

  -- Some page frames were taken, and no other frame has changed hands.
  abbrev pub Grown : List ℕ → Bitmap → Type 0
  Grown held m = (new : List ℕ) × Owned high_mem m (new ++ held)

  abbrev GrownAfter : List ℕ → Result Paging → Type 0
  GrownAfter held (returns s) = Grown held s.frames
  GrownAfter held (panics s) = true ≡ true

  abbrev GrownPages : List ℕ → Result (Bitmap × Paging) → Type 0
  GrownPages held (returns (bitmap, s)) = Grown held s.frames
  GrownPages held (panics s) = true ≡ true

  abbrev pub GrownMap : {A : Type 0} → List ℕ → Result (A × (Bitmap × Paging)) → Type 0
  GrownMap held (returns (a, (bitmap, s))) = Grown held s.frames
  GrownMap held (panics s) = true ≡ true

  with_table-Grown :
      (s : Paging) (v_addr flags : ℕ) {held : List ℕ}
      → Owned high_mem s.frames held
      → GrownAfter held (with_table s v_addr flags)
  unfolding with_table
  with_table-Grown s v_addr flags o =
      elim (Bool-cases (has_pg (s.entries (directory s v_addr) (v_addr / 2 ^ 22)) pg_present)) [
        | inl there ↦ rw (there, with_table) ([], o)
        | inr not_there ↦ elim (Option-cases (vmm_acquire_page_frame_4k s.frames)) [
          | inl full ↦ rw (not_there, with_table, full) refl
          | inr ((table, frames'), got) ↦
              rw (not_there, with_table, got) (table ∷ [], acquired-Owned high_mem o got)
        ]
      ]

  with_entry-frames :
      (s : Paging) (v_addr p_addr flags : ℕ)
      → (with_entry s v_addr p_addr flags).1.frames ≡ s.frames
  unfolding with_entry vmm_sync_all_from_kernel
  with_entry-frames s v_addr p_addr flags =
      if_both {A = Bool × Paging} (λ r. r.1.frames ≡ s.frames) _ refl
        (if_both {A = Paging} (λ r. r.frames ≡ s.frames) _ refl refl)

  abbrev GrownAdd : List ℕ → Result (Bool × Paging) → Type 0
  GrownAdd held (returns (done, s)) = Grown held s.frames
  GrownAdd held (panics s) = true ≡ true

  vmm_add_page_to_pd-Grown :
      (s : Paging) (v_addr p_addr flags : ℕ) {held : List ℕ}
      → Owned high_mem s.frames held
      → GrownAdd held (vmm_add_page_to_pd s v_addr p_addr flags)
  unfolding vmm_add_page_to_pd
  vmm_add_page_to_pd-Grown s v_addr p_addr flags {held = held} o =
      entered (with_table s v_addr flags) (with_table-Grown s v_addr flags o)
    where
      entered :
          (r : Result Paging)
          → GrownAfter held r
          → GrownAdd held (elim r [
            | panics s' ↦ panics s'
            | returns s' ↦ returns (with_entry s' v_addr p_addr flags)
          ])
      entered (panics s') g = refl
      entered (returns s') g = subst (Grown held) (sym (with_entry-frames s' v_addr p_addr flags)) g

  map_pages-Grown :
      (count : ℕ) (bitmap : Bitmap) (s : Paging) (v : ℕ) (p_addresses : List ℕ) (own : Bool)
      {held : List ℕ}
      → Owned high_mem s.frames held
      → GrownPages held (map_pages bitmap s v p_addresses count own)
  unfolding map_pages
  map_pages-Grown zero bitmap s v ps own o = ([], o)
  map_pages-Grown (suc count) bitmap s v ps own {held = held} o =
      rest (vmm_add_page_to_pd s v (frame_of (get_or ps 0 0)) (own_flags own))
        (vmm_add_page_to_pd-Grown s v (frame_of (get_or ps 0 0)) (own_flags own) o)
        (λ s' held' o'.
          map_pages-Grown count (set_pageframe_used bitmap (page_index_4k v)) s' (v + pagesize_4k)
            (drop 1 ps) own {held = held'} o')
    where
      further :
          (new : List ℕ) (r : Result (Bitmap × Paging))
          → GrownPages (new ++ held) r
          → GrownPages held r
      further new (panics s') g = refl
      further new (returns (m', s')) (more, g) =
          (more ++ new, subst (Owned high_mem s'.frames) (sym (append_assoc more new held)) g)

      rest :
          (r : Result (Bool × Paging))
          → GrownAdd held r
          → ((s' : Paging) (held' : List ℕ)
              → Owned high_mem s'.frames held'
              → GrownPages held' (
                  map_pages
                    (set_pageframe_used bitmap (page_index_4k v))
                    s'
                    (v + pagesize_4k)
                    (drop 1 ps)
                    count
                    own))
          → GrownPages held (elim r [
            | panics s' ↦ panics s'
            | returns (_, s') ↦
                map_pages
                  (set_pageframe_used bitmap (page_index_4k v))
                  s'
                  (v + pagesize_4k)
                  (drop 1 ps)
                  count
                  own
          ])
      rest (panics s') g others = refl
      rest (returns (done, s')) (new, o') others = further new _ (others s' (new ++ held) o')

  pub vmm_map_memory-Grown :
      (count : ℕ) (bitmap : Bitmap) (s : Paging) (start : ℕ) (p_addresses : List ℕ) (own : Bool)
      {held : List ℕ}
      → Owned high_mem s.frames held
      → GrownMap held (vmm_map_memory bitmap s start p_addresses count own)
  unfolding vmm_map_memory
  vmm_map_memory-Grown zero bitmap s start ps own o = ([], o)
  vmm_map_memory-Grown (suc count) bitmap s start ps own {held = held} o =
      elim (Option-cases (
        find_adjacent bitmap (suc count) (page_index_4k start)
          (page_index_4k memory_end - page_index_4k start) 0 0)) [
            | inl e ↦ rw (e, vmm_map_memory) ([], o)
            | inr (v, e) ↦
                rw (e, vmm_map_memory)
                  (done v (map_pages bitmap s v ps (suc count) own)
                    (map_pages-Grown (suc count) bitmap s v ps own o))
          ]
    where
      done :
          (v : ℕ) (r : Result (Bitmap × Paging))
          → GrownPages held r
          → GrownMap held
              (elim r [ panics s' ↦ panics s' | returns after ↦ returns (some v, after) ])
      done v (panics s') g = refl
      done v (returns after) g = g
