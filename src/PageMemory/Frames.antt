-- ===== src/PageMemory/Frames.antt =====
-- The bitmap as a set of pages, and the search for a free page frame.
use asterisk.Base.{
  ℕ, ◌/◌, ◌%◌, ◌<◌, ◌≡◌, ◌∙◌, inl, inr, sym, refl, ap₂, arith, Bool-cases, false, not, ◌&&◌, ◌||◌,
  ◌==◌, ==→eq, if_both,
}
use asterisk.PageMemory.{Bitmap, set_pageframe_used, set_pageframe_unused, is_pageframe_used}
use asterisk.PageMemory.Bytes.{bit, bit-bit_or, bit-bit_and, byte-bits}

-- The type `uint8_t` of the bytes.
abbrev pub IsBytes : Bitmap → Type 0
IsBytes bitmap = (i : ℕ) → bitmap i < 256

eq_places : (p q : ℕ) → q / 8 ≡ p / 8 → (q % 8 == p % 8) ≡ (q == p)
eq_places p q e = ground arith

neq_places : (p q : ℕ) → (q / 8 == p / 8) ≡ false → (q == p) ≡ false
neq_places p q e = ground arith

module _ (m : Bitmap) (bytes : IsBytes m) where
  pub used-set :
      (p q : ℕ) → is_pageframe_used (set_pageframe_used m p) q ≡ ((q == p) || is_pageframe_used m q)
  unfolding is_pageframe_used set_pageframe_used
  used-set p q = elim (Bool-cases (q / 8 == p / 8)) [
    | inl e ↦
        let e' : q / 8 ≡ p / 8 = ==→eq (q / 8) (p / 8) e in
        rw e (
          bit-bit_or (m (p / 8)) (p % 8) (q % 8) (bytes (p / 8)) (omega arith) (omega arith)
          ∙ ap₂ (λ b i. b || bit (m i) (q % 8)) (eq_places p q e') (sym e'))
    | inr e ↦ rw (e, neq_places p q e) refl
  ]

  pub used-unset :
      (a q : ℕ)
      → is_pageframe_used (set_pageframe_unused m a) q
        ≡ (not (q == a / 4096) && is_pageframe_used m q)
  unfolding is_pageframe_used set_pageframe_unused
  used-unset a q =
      let p = a / 4096 in
      elim (Bool-cases (q / 8 == p / 8)) [
        | inl e ↦
            let e' : q / 8 ≡ p / 8 = ==→eq (q / 8) (p / 8) e in
            rw e (
              bit-bit_and (m (p / 8)) (p % 8) (q % 8) (bytes (p / 8)) (omega arith) (omega arith)
              ∙ ap₂ (λ b i. not b && bit (m i) (q % 8)) (eq_places p q e') (sym e'))
        | inr e ↦ rw (e, neq_places p q e) refl
      ]

  pub set-IsBytes : (p : ℕ) → IsBytes (set_pageframe_used m p)
  unfolding set_pageframe_used
  set-IsBytes p i =
      if_both (λ x. x < 256) (i == p / 8)
        (byte-bits (m (p / 8)) (p % 8) (bytes (p / 8)) (omega arith)).0 (bytes i)

  pub unset-IsBytes : (a : ℕ) → IsBytes (set_pageframe_unused m a)
  unfolding set_pageframe_unused
  unset-IsBytes a i =
      let p = a / 4096 in
      if_both (λ x. x < 256) (i == p / 8)
        (byte-bits (m (p / 8)) (p % 8) (bytes (p / 8)) (omega arith)).1 (bytes i)
