-- ===== src/SharedMemory/Unmapped.antt =====
-- sharedmemory_unmap_for_process_all of kernel/sharedmemory.c, which process_destroy calls.
use asterisk.Base.{
  ℕ, ◌-◌, ◌≡◌, ◌∙◌, sym, refl, ap, arith, Bool-cases, inl, inr, false, ◌&&◌, List, [], ◌∷◌, ◌==◌,
  ==→eq, if◌then◌else◌,
}
use asterisk.SharedMemory.{
  State, SharedMemory, MapInfo, addresses_in, process_shared_mapped_list, unmap_each,
  sharedmemory_unmap_if_exists, sharedmemory_unmap_for_process_all,
}
use asterisk.SharedMemory.Counts.{one_if, occurrences, occurrences-append}
use asterisk.SharedMemory.Objects.{Apart}
use asterisk.SharedMemory.Mappings.{mappings_in, mappings, unmap_if_exists-Fewer}

addresses_in-mappings :
    (infos : List MapInfo) (process a : ℕ)
    → occurrences (addresses_in infos process) a ≡ mappings_in infos process a
addresses_in-mappings [] process a = refl
addresses_in-mappings (i ∷ infos) process a = elim (Bool-cases (i.process == process)) [
  | inl e ↦
      rw e (omega (arith, addresses_in-mappings infos process a, ap one_if (turned i.v_address a)))
  | inr e ↦ rw e (omega (arith, addresses_in-mappings infos process a))
]
  where
    turned : (m n : ℕ) → (n == m) ≡ (m == n)
    turned m n = ground arith

-- Each mapping of the process is on the list, as often as there are such.
process_shared_mapped_list-mappings :
    (os : List SharedMemory) (process a : ℕ)
    → occurrences (process_shared_mapped_list os process) a ≡ mappings os process a
process_shared_mapped_list-mappings [] process a = refl
process_shared_mapped_list-mappings (o ∷ os) process a = omega (
  arith,
  occurrences-append (addresses_in o.mmapped_list process) (process_shared_mapped_list os process)
      a,
  addresses_in-mappings o.mmapped_list process a,
  process_shared_mapped_list-mappings os process a,
)

-- The mappings after those of the addresses have been removed.
unmap_each-mappings :
    (s : State) (process : ℕ) (addresses : List ℕ)
    → Apart s.g_shm_list
    → ((a : ℕ)
        → mappings (unmap_each s process addresses).g_shm_list process a
          ≡ mappings s.g_shm_list process a - occurrences addresses a)
      × ((p a : ℕ)
          → (process == p) ≡ false
          → mappings (unmap_each s process addresses).g_shm_list p a ≡ mappings s.g_shm_list p a)
unfolding unmap_each
unmap_each-mappings s process [] apart = (λ a. omega arith, λ p a other. refl)
unmap_each-mappings s process (x ∷ rest) apart =
    let s' : State = (sharedmemory_unmap_if_exists s process x).1 in
    let (fewer, apart') = unmap_if_exists-Fewer s process x apart in
    let (own, others) = unmap_each-mappings s' process rest apart' in
    (
      λ a. own a ∙ omega (arith, fewer process a, ap one_if (here x a)),
      λ p a other.
          others p a other ∙ omega (arith, fewer p a, ap one_if (ap (λ b. b && (x == a)) other)),
    )
  where
    here : (x a : ℕ) → ((process == process) && (x == a)) ≡ (a == x)
    here x a = ground arith

-- If no pointer stands for two objects, sharedmemory_unmap_for_process_all leaves no mapping in the
-- process, of whatever address, and all the mappings in other processes.
pub unmap_for_process_all-mappings :
    (s : State) (process p a : ℕ)
    → Apart s.g_shm_list
    → mappings (sharedmemory_unmap_for_process_all s process).g_shm_list p a
      ≡ (if process == p then 0 else mappings s.g_shm_list p a)
unfolding sharedmemory_unmap_for_process_all
unmap_for_process_all-mappings s process p a apart =
    let (own, others) =
      unmap_each-mappings s process (process_shared_mapped_list s.g_shm_list process) apart in
    elim (Bool-cases (process == p)) [
      | inl e ↦ rw e (
          ap (λ q. mappings (sharedmemory_unmap_for_process_all s process).g_shm_list q a)
            (sym (==→eq process p e))
          ∙ (own a ∙ omega (arith, process_shared_mapped_list-mappings s.g_shm_list process a)))
      | inr e ↦ rw e (others p a e)
    ]
