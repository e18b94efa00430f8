-- ===== src/SharedMemory/Kept.antt =====
-- What the calls of kernel/sharedmemory.c keep: the account of the page frames, and which objects
-- there are.
use asterisk.Base.{
  ℕ, ◌+◌, ◌≡◌, ◌∙◌, sym, refl, ap, arith, subst, inl, inr, true, ◌&&◌, Option-cases, List, [], ◌∷◌,
  ◌++◌, append-nil, none, some, ltb, if_each, length,
}
use asterisk.PageMemory.Ownership.{Owned}
use asterisk.SharedMemory.{
  State, SharedMemory, Call, returned, faulted, panicked, object_at, change, remove, is_unmapped,
  changed, new_object, node_name_size, sharedmemory_create, sharedmemory_unlink,
  sharedmemory_unmap_if_exists, sharedmemory_destroy_if_suitable, sharedmemory_destroy,
  sharedmemory_get_node, unmap_search,
}
use asterisk.SharedMemory.Counts.{Same, one_if, occurrences, occurrences-append, Same-Owned}
use asterisk.SharedMemory.Frames.{release_all-Owned}
use asterisk.SharedMemory.Objects.{
  total, Apart, object_at-address, object_at-change, total-change, total-remove, total-append,
  Apart-change, Apart-remove, Apart-append, unmap_search-Found,
}

-- The page frames of the objects.
abbrev pub frames_of : List SharedMemory → List ℕ
frames_of [] = []
frames_of (o ∷ os) = o.physical_address_list ++ frames_of os

-- Whether an object should have been destroyed, as a number.
abbrev pub idle : SharedMemory → ℕ
idle o = one_if (o.marked_unlink && is_unmapped o.mmapped_list)

-- The page frames in use are those that others hold and those of the objects, each held once; every
-- object is still to be found or mapped; and no pointer stands for two objects.
pub record Kept (high_mem : ℕ) (others : List ℕ) (s : State) : Type 0 where
  pub frames : Owned high_mem s.paging.frames (others ++ frames_of s.g_shm_list)
  pub needed : total idle s.g_shm_list ≡ 0
  pub apart : Apart s.g_shm_list

abbrev frame_count : ℕ → SharedMemory → ℕ
frame_count a o = occurrences o.physical_address_list a

frames_of-total :
    (os : List SharedMemory) (a : ℕ) → occurrences (frames_of os) a ≡ total (frame_count a) os
frames_of-total [] a = refl
frames_of-total (o ∷ os) a =
    omega (arith, occurrences-append o.physical_address_list (frames_of os) a, frames_of-total os a)

held-total :
    (others : List ℕ) (os : List SharedMemory) (a : ℕ)
    → occurrences (others ++ frames_of os) a ≡ occurrences others a + total (frame_count a) os
held-total others os a =
    omega (arith, occurrences-append others (frames_of os) a, frames_of-total os a)

-- The object gets the page frames `new`.
pub change-Same :
    (new others : List ℕ) (os : List SharedMemory) (x o : SharedMemory)
    → object_at os x.address ≡ some o
    → x.physical_address_list ≡ o.physical_address_list ++ new
    → Same (new ++ (others ++ frames_of os)) (others ++ frames_of (change os x))
change-Same new others os x o there same a =
    let more : frame_count a x ≡ frame_count a o + occurrences new a =
      ap (λ l. occurrences l a) same ∙ occurrences-append o.physical_address_list new a in
    omega (
      arith,
      more,
      occurrences-append new (others ++ frames_of os) a,
      held-total others os a,
      held-total others (change os x) a,
      total-change (frame_count a) os x o there,
    )

remove-Same :
    (others : List ℕ) (os : List SharedMemory) (p : ℕ) (o : SharedMemory)
    → object_at os p ≡ some o
    → Same (others ++ frames_of os) (o.physical_address_list ++ (others ++ frames_of (remove os p)))
remove-Same others os p o there a = omega (
  arith,
  held-total others os a,
  held-total others (remove os p) a,
  occurrences-append o.physical_address_list (others ++ frames_of (remove os p)) a,
  total-remove (frame_count a) os p o there,
)

abbrev pub After : {A : Type 0} → (State → Type 0) → Call (A × State) → Type 0
After P (returned (a, s)) = P s
After P faulted = true ≡ true
After P panicked = true ≡ true

-- An object may have become idle; then it is destroyed, and its page frames are free.
destroy_if_suitable-Kept :
    (high_mem : ℕ) (others : List ℕ) (s : State) (o : SharedMemory)
    → Owned high_mem s.paging.frames (others ++ frames_of s.g_shm_list)
    → Apart s.g_shm_list
    → object_at s.g_shm_list o.address ≡ some o
    → total idle s.g_shm_list ≡ idle o
    → Kept high_mem others (sharedmemory_destroy_if_suitable s o)
unfolding sharedmemory_destroy_if_suitable sharedmemory_destroy
destroy_if_suitable-Kept high_mem others s o owned apart there only =
    if_each (Kept high_mem others) (o.marked_unlink && is_unmapped o.mmapped_list)
      (λ e. record {
        frames =
            release_all-Owned high_mem o.physical_address_list
              (Same-Owned high_mem (remove-Same others s.g_shm_list o.address o there) owned);
        needed = omega (arith, only, total-remove idle s.g_shm_list o.address o there);
        apart = Apart-remove s.g_shm_list o.address apart;
      })
      (λ e. record { frames = owned; needed = only ∙ ap one_if e; apart = apart })

module _ (high_mem : ℕ) (others : List ℕ) (s : State) (kept : Kept high_mem others s) where
  -- An object is written that keeps its page frames, and it may be idle then.
  rewritten :
      (x o : SharedMemory)
      → object_at s.g_shm_list x.address ≡ some o
      → x.physical_address_list ≡ o.physical_address_list
      → (Owned high_mem s.paging.frames (others ++ frames_of (change s.g_shm_list x)))
        × (Apart (change s.g_shm_list x))
        × (object_at (change s.g_shm_list x) x.address ≡ some x)
        × (total idle (change s.g_shm_list x) ≡ idle x)
  rewritten x o there same = (
    Same-Owned high_mem
        (change-Same [] others s.g_shm_list x o there
          (same ∙ sym (append-nil o.physical_address_list)))
        kept.frames,
    Apart-change s.g_shm_list x kept.apart,
    object_at-change s.g_shm_list x o there,
    omega (
      arith,
      kept.needed,
      total-change idle s.g_shm_list x o there,
      total-remove idle s.g_shm_list x.address o there,
    ),
  )

  -- The same, where it is then destroyed if it is idle.
  rewritten-Kept :
      (x o : SharedMemory)
      → object_at s.g_shm_list x.address ≡ some o
      → x.physical_address_list ≡ o.physical_address_list
      → Kept high_mem others (sharedmemory_destroy_if_suitable (changed s x) x)
  rewritten-Kept x o there same =
      let (owned, apart, here, only) = rewritten x o there same in
      destroy_if_suitable-Kept high_mem others (changed s x) x owned apart here only

  pub at_own_address :
      (p : ℕ) (o : SharedMemory)
      → object_at s.g_shm_list p ≡ some o
      → object_at s.g_shm_list o.address ≡ some o
  at_own_address p o e =
      subst (λ q. object_at s.g_shm_list q ≡ some o) (sym (object_at-address s.g_shm_list p o e)) e

  pub unlink-Kept : (p : ℕ) → After (Kept high_mem others) (sharedmemory_unlink s p)
  unfolding sharedmemory_unlink
  unlink-Kept p = elim (Option-cases (object_at s.g_shm_list p)) [
    | inl e ↦ rw (e, sharedmemory_unlink) refl
    | inr (o, e) ↦
        rw (e, sharedmemory_unlink)
          (rewritten-Kept (record o { marked_unlink = true }) o (at_own_address p o e) refl)
  ]

  pub unmap_if_exists-Kept :
      (process address : ℕ)
      → Kept high_mem others (sharedmemory_unmap_if_exists s process address).1
  unfolding sharedmemory_unmap_if_exists
  unmap_if_exists-Kept process address =
      elim (Option-cases (unmap_search s.g_shm_list process address)) [
        | inl e ↦ rw (e, sharedmemory_unmap_if_exists) kept
        | inr (x, e) ↦
            rw (e, sharedmemory_unmap_if_exists)
              (let (o, rest, there, dropped, same) =
                  unmap_search-Found s.g_shm_list process address x kept.apart e in
                rewritten-Kept x o there (ap (λ y. y.physical_address_list) same))
      ]

  pub create-Kept :
      (address : ℕ) (name : List ℕ)
      → object_at s.g_shm_list address ≡ none
      → After (Kept high_mem others) (sharedmemory_create s address name)
  unfolding sharedmemory_create
  create-Kept address name free = elim (Option-cases (sharedmemory_get_node s.g_shm_list name)) [
    | inr (o, e) ↦ rw (e, sharedmemory_create) kept
    | inl e ↦
        rw (e, sharedmemory_create)
          (if_each (After (Kept high_mem others))
            (ltb 0 (length name) && ltb (length name) node_name_size)
            (λ copied. record {
              frames = Same-Owned high_mem more kept.frames;
              needed = omega (
                arith,
                kept.needed,
                total-append idle s.g_shm_list (new_object address name ∷ []),
              );
              apart = Apart-append s.g_shm_list (new_object address name) free kept.apart;
            })
            (λ overruns. refl))
  ]
    where
      more :
          Same
            (others ++ frames_of s.g_shm_list)
            (others ++ frames_of (s.g_shm_list ++ (new_object address name ∷ [])))
      more a = omega (
        arith,
        held-total others s.g_shm_list a,
        held-total others (s.g_shm_list ++ (new_object address name ∷ [])) a,
        total-append (frame_count a) s.g_shm_list (new_object address name ∷ []),
      )
