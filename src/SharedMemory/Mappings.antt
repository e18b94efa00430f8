-- ===== src/SharedMemory/Mappings.antt =====
-- How many mappings of an address in a process there are, over all objects of
-- kernel/sharedmemory.c.
use asterisk.Base.{
  ℕ, ◌+◌, ◌-◌, ◌≡◌, ◌∙◌, sym, refl, ap, arith, Bool, Bool-cases, inl, inr, true, false, ◌&&◌,
  Option-cases, List, [], ◌∷◌, none, some, ◌==◌, if_both, if_each,
}
use asterisk.SharedMemory.{
  State, SharedMemory, MapInfo, object_at, is_unmapped, changed, is_mapping, drop_mapping,
  unmap_search, sharedmemory_unmap_if_exists, sharedmemory_destroy_if_suitable,
  sharedmemory_destroy,
}
use asterisk.SharedMemory.Counts.{one_if}
use asterisk.SharedMemory.Objects.{
  total, Apart, Found, object_at-change, total-change, total-remove, Apart-change, Apart-remove,
  unmap_search-Found,
}

abbrev pub mappings_in : List MapInfo → (process address : ℕ) → ℕ
mappings_in [] process address = 0
mappings_in (info ∷ infos) process address =
    one_if (is_mapping info process address) + mappings_in infos process address

abbrev pub mappings : List SharedMemory → (process address : ℕ) → ℕ
mappings os process address = total (λ o. mappings_in o.mmapped_list process address) os

same_mapping :
    (m n process address p a : ℕ)
    → ((m == process) && (n == address)) ≡ true
    → ((m == p) && (n == a)) ≡ ((process == p) && (address == a))
same_mapping m n process address p a e = ground arith

-- One mapping of the address is taken away, and no other.
drop_mapping-one :
    (process address : ℕ) (infos rest : List MapInfo) (p a : ℕ)
    → drop_mapping infos process address ≡ some rest
    → mappings_in rest p a + one_if ((process == p) && (address == a)) ≡ mappings_in infos p a
unfolding drop_mapping
drop_mapping-one process address [] rest p a e = absurd (cc)
drop_mapping-one process address (i ∷ infos) rest p a e =
    elim (Bool-cases (is_mapping i process address)) [
      | inl here ↦
          (let first : drop_mapping (i ∷ infos) process address ≡ some infos =
              rw (here, drop_mapping) refl in
            let same : infos ≡ rest = cc in
            let count = ap (λ l. mappings_in l p a) same in
            let this = ap one_if (same_mapping i.process i.v_address process address p a here) in
            omega (arith, count, this))
      | inr not_here ↦ elim (Option-cases (drop_mapping infos process address)) [
        | inl e' ↦
            (let gone : drop_mapping (i ∷ infos) process address ≡ none =
                rw (not_here, drop_mapping, e') refl in
              absurd (cc))
        | inr (rest', e') ↦
            (let first : drop_mapping (i ∷ infos) process address ≡ some (i ∷ rest') =
                rw (not_here, drop_mapping, e') refl in
              let same : i ∷ rest' ≡ rest = cc in
              let count = ap (λ l. mappings_in l p a) same in
              omega (arith, count, drop_mapping-one process address infos rest' p a e'))
      ]
    ]

drop_mapping-none :
    (process address : ℕ) (infos : List MapInfo)
    → drop_mapping infos process address ≡ none
    → mappings_in infos process address ≡ 0
unfolding drop_mapping
drop_mapping-none process address [] e = refl
drop_mapping-none process address (i ∷ infos) e = elim (Bool-cases (is_mapping i process address)) [
  | inl here ↦
      (let first : drop_mapping (i ∷ infos) process address ≡ some infos =
          rw (here, drop_mapping) refl in
        absurd (cc))
  | inr not_here ↦ elim (Option-cases (drop_mapping infos process address)) [
    | inl e' ↦
        (let this = ap one_if not_here in
          omega (arith, this, drop_mapping-none process address infos e'))
    | inr (rest', e') ↦
        (let first : drop_mapping (i ∷ infos) process address ≡ some (i ∷ rest') =
            rw (not_here, drop_mapping, e') refl in
          absurd (cc))
  ]
]

unmap_search-none :
    (process address : ℕ) (os : List SharedMemory)
    → unmap_search os process address ≡ none
    → mappings os process address ≡ 0
unfolding unmap_search
unmap_search-none process address [] e = refl
unmap_search-none process address (o ∷ os) e =
    elim (Option-cases (drop_mapping o.mmapped_list process address)) [
      | inr (rest, f) ↦
          (let first : unmap_search (o ∷ os) process address
                ≡ some (record o { mmapped_list = rest }) =
              rw (f, unmap_search) refl in
            absurd (cc))
      | inl f ↦
          (let next : unmap_search (o ∷ os) process address ≡ unmap_search os process address =
              rw (f, unmap_search) refl in
            omega (
              arith,
              drop_mapping-none process address o.mmapped_list f,
              unmap_search-none process address os (sym next ∙ e),
            ))
    ]

-- The mappings are those of the other state but for one of the address, and pointers stay apart.
abbrev pub Fewer : State → (process address : ℕ) → State → Type 0
Fewer s process address s' =
    ((p a : ℕ)
      → mappings s'.g_shm_list p a
        ≡ mappings s.g_shm_list p a - one_if ((process == p) && (address == a)))
    × Apart s'.g_shm_list

destroy_if_suitable-mappings :
    (s : State) (o : SharedMemory)
    → object_at s.g_shm_list o.address ≡ some o
    → (p a : ℕ)
    → mappings (sharedmemory_destroy_if_suitable s o).g_shm_list p a ≡ mappings s.g_shm_list p a
unfolding sharedmemory_destroy_if_suitable sharedmemory_destroy
destroy_if_suitable-mappings s o there p a =
    if_each {A = State} (λ r. mappings r.g_shm_list p a ≡ mappings s.g_shm_list p a)
      (o.marked_unlink && is_unmapped o.mmapped_list)
      (λ e.
        (let without = no_mappings o.marked_unlink o.mmapped_list e in
          omega (
            arith,
            without,
            total-remove (λ x. mappings_in x.mmapped_list p a) s.g_shm_list o.address o there,
          )))
      (λ e. refl)
  where
    no_mappings :
        (marked : Bool) (infos : List MapInfo)
        → (marked && is_unmapped infos) ≡ true
        → mappings_in infos p a ≡ 0
    no_mappings true [] e = refl
    no_mappings true (i ∷ infos) e = absurd (cc)
    no_mappings false infos e = absurd (cc)

destroy_if_suitable-Apart :
    (s : State) (o : SharedMemory)
    → Apart s.g_shm_list
    → Apart (sharedmemory_destroy_if_suitable s o).g_shm_list
unfolding sharedmemory_destroy_if_suitable sharedmemory_destroy
destroy_if_suitable-Apart s o apart =
    if_both {A = State} (λ r. Apart r.g_shm_list) (o.marked_unlink && is_unmapped o.mmapped_list)
      (Apart-remove s.g_shm_list o.address apart) apart

pub unmap_if_exists-Fewer :
    (s : State) (process address : ℕ)
    → Apart s.g_shm_list
    → Fewer s process address (sharedmemory_unmap_if_exists s process address).1
unfolding sharedmemory_unmap_if_exists
unmap_if_exists-Fewer s process address apart =
    elim (Option-cases (unmap_search s.g_shm_list process address)) [
      | inl e ↦
          rw (e, sharedmemory_unmap_if_exists)
            ((λ p a. unchanged p a (unmap_search-none process address s.g_shm_list e)), apart)
      | inr (x, e) ↦
          rw (e, sharedmemory_unmap_if_exists)
            (removed x (unmap_search-Found s.g_shm_list process address x apart e))
    ]
  where
    unchanged :
        (p a : ℕ)
        → mappings s.g_shm_list process address ≡ 0
        → mappings s.g_shm_list p a
          ≡ mappings s.g_shm_list p a - one_if ((process == p) && (address == a))
    unchanged p a none_there = elim (Bool-cases ((process == p) && (address == a))) [
      | inl e ↦
          (let (pp, aa) = both process address p a e in
            let here : mappings s.g_shm_list p a ≡ 0 =
              sym (ap (mappings s.g_shm_list process) aa ∙ ap (λ q. mappings s.g_shm_list q a) pp)
              ∙ none_there in
            omega (arith, here))
      | inr e ↦ (let zero_less = ap one_if e in omega (arith, zero_less))
    ]
      where
        both : (m n p a : ℕ) → ((m == p) && (n == a)) ≡ true → (m ≡ p) × (n ≡ a)
        both m n p a e = (ground arith, ground arith)

    removed :
        (x : SharedMemory)
        → Found s.g_shm_list process address x
        → Fewer s process address (sharedmemory_destroy_if_suitable (changed s x) x)
    removed x (o, rest, there, dropped, same) = (
      λ p a.
          let x_has = ap (λ y. mappings_in y.mmapped_list p a) same in
          destroy_if_suitable-mappings (changed s x) x (object_at-change s.g_shm_list x o there) p a
          ∙ omega (
            arith,
            x_has,
            drop_mapping-one process address o.mmapped_list rest p a dropped,
            total-change (λ y. mappings_in y.mmapped_list p a) s.g_shm_list x o there,
          ),
      destroy_if_suitable-Apart (changed s x) x (Apart-change s.g_shm_list x apart),
    )
