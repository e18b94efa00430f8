-- ===== src/SharedMemory/Newly.antt =====
-- The page frames that a call has taken: those that are in use after it and were not before.
use asterisk.Base.{
  ℕ, zero, suc, ◌+◌, ◌*◌, ◌/◌, ◌%◌, ◌<◌, ◌≤◌, ◌≡◌, ◌∙◌, sym, refl, ap, arith, Bool, Bool-cases, inl,
  inr, true, false, not, ◌&&◌, ◌||◌, List, [], ◌∷◌, ◌++◌, ltb, ◌==◌, if◌then◌else◌,
}
use asterisk.KernelHeap.{pagesize_4k}
use asterisk.PageMemory.{Bitmap, is_pageframe_used, ram_as_4k_pages, total_page_count}
use asterisk.PageMemory.Start.{unavailable}
use asterisk.PageMemory.Ownership.{has_address, Owned, available}
use asterisk.SharedMemory.Counts.{
  one_if, occurrences, occurrences-append, Same, Same-Owned, has_address-occurrences,
  Distinct-occurrences,
}

-- The addresses of the first `pages` page frames that `m'` has in use and `m` has not.
unfoldable pub newly : (m m' : Bitmap) → (pages : ℕ) → List ℕ
newly m m' zero = []
newly m m' (suc q) =
    let rest = newly m m' q in
    if is_pageframe_used m' q && not (is_pageframe_used m q) then q * pagesize_4k ∷ rest else rest

abbrev is_new : (m m' : Bitmap) → ℕ → Bool
is_new m m' q = is_pageframe_used m' q && not (is_pageframe_used m q)

at_page :
    (a q : ℕ)
    → (a == q * 4096) ≡ true
    → (((a % 4096 == 0) && ltb (a / 4096) q) ≡ false)
      × (((a % 4096 == 0) && ltb (a / 4096) (suc q)) ≡ true)
      × (a / 4096 ≡ q)
at_page a q e = (ground arith, ground arith, ground arith)

off_page :
    (a q : ℕ)
    → (a == q * 4096) ≡ false
    → ((a % 4096 == 0) && ltb (a / 4096) q) ≡ ((a % 4096 == 0) && ltb (a / 4096) (suc q))
off_page a q e = ground arith

none_below : (b : Bool) (k : ℕ) (new : Bool) → 0 ≡ one_if ((b && ltb k 0) && new)
none_below true k new = ground arith
none_below false k new = refl

counted :
    (p r new : Bool) {n : ℕ}
    → p ≡ false
    → r ≡ true
    → new ≡ true
    → n ≡ one_if (p && new)
    → 1 + n ≡ one_if (r && new)
counted p r new {n = n} out within is_new same =
    let none_below : n ≡ 0 = same ∙ (rw out refl) in rw (within, is_new) (omega (arith, none_below))

nothing : (p new : Bool) → new ≡ false → (p && new) ≡ false
nothing true new e = e
nothing false new e = refl

occurrences-newly :
    (m m' : Bitmap) (n a : ℕ)
    → occurrences (newly m m' n) a
      ≡ one_if (((a % 4096 == 0) && ltb (a / 4096) n) && is_new m m' (a / 4096))
unfolding newly
occurrences-newly m m' zero a = none_below (a % 4096 == 0) (a / 4096) (is_new m m' (a / 4096))
occurrences-newly m m' (suc q) a = elim (Bool-cases (a == q * 4096)) [
  | inl e ↦
      let (out, within, same) = at_page a q e in
      elim (Bool-cases (is_new m m' q)) [
        | inl f ↦
            rw (f, newly)
              (rw e (
                counted _ _ (is_new m m' (a / 4096)) out within (ap (is_new m m') same ∙ f)
                  (occurrences-newly m m' q a)))
        | inr f ↦
            rw (f, newly)
              (occurrences-newly m m' q a
                ∙ (ap one_if (
                    nothing _ (is_new m m' (a / 4096)) (ap (is_new m m') same ∙ f)
                    ∙ sym (nothing _ (is_new m m' (a / 4096)) (ap (is_new m m') same ∙ f)))))
      ]
  | inr e ↦ elim (Bool-cases (is_new m m' q)) [
    | inl f ↦
        rw (f, newly)
          (rw e (
            omega (
              arith,
              occurrences-newly m m' q a,
              ap (λ b. one_if (b && is_new m m' (a / 4096))) (off_page a q e),
            )))
    | inr f ↦
        rw (f, newly)
          (occurrences-newly m m' q a
            ∙ ap (λ b. one_if (b && is_new m m' (a / 4096))) (off_page a q e))
  ]
]

page_of_address : (a : ℕ) → a % 4096 ≡ 0 → a / 4096 * 4096 ≡ a
page_of_address a e = ground arith

in_machine :
    (high_mem a : ℕ) → a + 4096 ≤ 8 * (total_page_count high_mem / 8) * 4096 → a / 4096 < 0x100000
unfolding total_page_count
in_machine high_mem a e = ground arith

held_before : (u v h : Bool) (b : Bool) → u ≡ (v || h) → v ≡ false → h ≡ b → u ≡ b
held_before u v h b e f g = e ∙ (rw f g)

taken :
    (test u' u : Bool) (n k : ℕ)
    → test ≡ true
    → u' ≡ true
    → u ≡ ltb 0 k
    → ltb 0 (n + k) ≡ true
    → n + k ≤ 1
    → one_if (test && (u' && not u)) ≡ n
taken test u' u n k e f g some_held once =
    rw (e, f) (rw g (by_count (ltb 0 k) n k refl some_held once))
  where
    by_count :
        (b : Bool) (n k : ℕ) → ltb 0 k ≡ b → ltb 0 (n + k) ≡ true → n + k ≤ 1 → one_if (not b) ≡ n
    by_count true n k e h le = ground arith
    by_count false n k e h le = ground arith

not_taken : (test u' u : Bool) → (test ≡ true → u' ≡ u) → one_if (test && (u' && not u)) ≡ 0
not_taken true true u h = rw (sym (h refl)) refl
not_taken true false u h = refl
not_taken false u' u h = refl

below : (a n : ℕ) → ((a % 4096 == 0) && ltb (a / 4096) n) ≡ true → (a % 4096 ≡ 0) × (a / 4096 < n)
below a n e = (ground arith, ground arith)

module _ (high_mem : ℕ) (m m' : Bitmap) (new held : List ℕ) (o : Owned high_mem m held)
    (o' : Owned high_mem m' (new ++ held)) where
  count_of : (a : ℕ) → has_address (new ++ held) a ≡ ltb 0 (occurrences new a + occurrences held a)
  count_of a = has_address-occurrences (new ++ held) a ∙ ap (ltb 0) (occurrences-append new held a)

  once : (a : ℕ) → occurrences new a + occurrences held a ≤ 1
  once a =
      omega (arith, occurrences-append new held a, Distinct-occurrences (new ++ held) o'.distinct a)

  -- A frame that is held by none of both is in use after the call as before.
  unchanged :
      (a : ℕ)
      → has_address (new ++ held) a ≡ false
      → a % 4096 ≡ 0
      → a / 4096 < ram_as_4k_pages
      → is_pageframe_used m' (a / 4096) ≡ is_pageframe_used m (a / 4096)
  unchanged a h whole within =
      let address = page_of_address a whole in
      let absent : has_address held a ≡ false =
        has_address-occurrences held a
        ∙ no_more (occurrences new a) (occurrences held a) (sym (count_of a) ∙ h) in
      o'.used (a / 4096) within
      ∙ (ap (λ b. unavailable high_mem (a / 4096) || has_address (new ++ held) b) address
          ∙ (ap (λ b. unavailable high_mem (a / 4096) || b) (h ∙ sym absent)
              ∙ (ap (λ b. unavailable high_mem (a / 4096) || has_address held b) (sym address)
                  ∙ sym (o.used (a / 4096) within))))
    where
      no_more : (n k : ℕ) → ltb 0 (n + k) ≡ false → ltb 0 k ≡ false
      no_more n k e = ground arith

  newly-Same : Same (newly m m' ram_as_4k_pages) new
  newly-Same a =
      occurrences-newly m m' ram_as_4k_pages a ∙ elim (Bool-cases (has_address (new ++ held) a)) [
        | inl h ↦
            let (whole, low, high) = o'.inside a h in
            let address = page_of_address a whole in
            let within = in_machine high_mem a high in
            let free = available high_mem (a / 4096) a (whole, low, high) (ground arith) in
            taken _ (is_pageframe_used m' (a / 4096)) (is_pageframe_used m (a / 4096))
              (occurrences new a) (occurrences held a) (ground arith)
              (held_before _ _ _ true (o'.used (a / 4096) within) free
                (ap (has_address (new ++ held)) address ∙ h))
              (held_before _ _ _ (ltb 0 (occurrences held a)) (o.used (a / 4096) within) free
                (ap (has_address held) address ∙ has_address-occurrences held a))
              (sym (count_of a) ∙ h) (once a)
        | inr h ↦
            not_taken _ (is_pageframe_used m' (a / 4096)) (is_pageframe_used m (a / 4096))
              (λ e. let (whole, within) = below a ram_as_4k_pages e in unchanged a h whole within)
            ∙ none_new (occurrences new a) (occurrences held a) (sym (count_of a) ∙ h)
      ]
    where
      none_new : (n k : ℕ) → ltb 0 (n + k) ≡ false → 0 ≡ n
      none_new n k e = ground arith

  -- What a call has taken is held beside what was held before.
  pub newly-Owned : Owned high_mem m' (newly m m' ram_as_4k_pages ++ held)
  newly-Owned = Same-Owned high_mem same_held o'
    where
      same_held : Same (new ++ held) (newly m m' ram_as_4k_pages ++ held)
      same_held a = omega (
        arith,
        occurrences-append new held a,
        occurrences-append (newly m m' ram_as_4k_pages) held a,
        newly-Same a,
      )
