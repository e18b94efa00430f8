-- ===== src/PageMemory/Search.antt =====
-- The search of kernel/vmm.c for a free page frame.
use asterisk.Base.{
  ℕ, zero, suc, ◌+◌, ◌-◌, ◌*◌, ◌/◌, ◌%◌, ◌^◌, ◌≤◌, ◌<◌, ◌≡◌, ◌∙◌, ◌⊎◌, inl, inr, ap, ap₂, subst,
  arith, Bool, Bool-cases, Option-cases, true, false, not, Option, none, some, ◌==◌, ==→eq,
}
use asterisk.PageMemory.{Bitmap, is_pageframe_used, clear_bit, clear_page}
use asterisk.PageMemory.Bytes.{bit, bit-full}
use Prim.Native.Nat.{bit_and}

-- The least place in a range where `p` is false, if there is one.
abbrev pub Lowest : (ℕ → Bool) → (first last : ℕ) → Option ℕ → Type 0
Lowest p first last none = (j : ℕ) → first ≤ j → j < last → p j ≡ true
Lowest p first last (some k) =
    (first ≤ k) × (k < last) × (p k ≡ false) × ((j : ℕ) → first ≤ j → j < k → p j ≡ true)

lt_or_le : (a b : ℕ) → (a < b) ⊎ (b ≤ a)
lt_or_le a b = ground arith

-- If `p` is true on the first part of a range, the least place is one of the second part.
Lowest-later :
    (p : ℕ → Bool) (first middle last : ℕ) (found : Option ℕ)
    → first ≤ middle
    → ((j : ℕ) → first ≤ j → j < middle → p j ≡ true)
    → Lowest p middle last found
    → Lowest p first last found
Lowest-later p first middle last none le part later =
    λ j lo hi. elim (lt_or_le j middle) [ inl h ↦ part j lo h | inr h ↦ later j h hi ]
Lowest-later p first middle last (some k) le part (lo, hi, here, before) = (
  omega arith,
  hi,
  here,
  λ j l h. elim (lt_or_le j middle) [ inl b ↦ part j l b | inr b ↦ before j b h ],
)

clear_bit-Lowest :
    (byte first left : ℕ) → Lowest (bit byte) first (first + left) (clear_bit byte first left)
clear_bit-Lowest byte first zero = λ j lo hi. absurd (omega arith)
clear_bit-Lowest byte first (suc left) = elim (Bool-cases (bit_and byte (2 ^ first) == 0)) [
  | inl e ↦ rw (e, clear_bit) (omega arith, omega arith, ap not e, λ j lo hi. absurd (omega arith))
  | inr e ↦
      let add : suc first + left ≡ first + suc left = omega arith in
      let here : (j : ℕ) → first ≤ j → j < suc first → bit byte j ≡ true =
        λ j lo hi. (let same : j ≡ first = omega arith in rw same (ap not e)) in
      rw (e, clear_bit)
        (Lowest-later (bit byte) first (suc first) (first + suc left)
          (clear_bit byte (suc first) left) (omega arith) here
          (subst (λ n. Lowest (bit byte) (suc first) n (clear_bit byte (suc first) left)) add
            (clear_bit-Lowest byte (suc first) left)))
]

module _ (m : Bitmap) where
  -- What the bits of a byte say of the pages.
  byte_page :
      (byte j : ℕ)
      → 8 * byte ≤ j
      → j < 8 * suc byte
      → is_pageframe_used m j ≡ bit (m byte) (j - 8 * byte)
  unfolding is_pageframe_used
  byte_page byte j lo hi =
      let e : j / 8 ≡ byte = omega arith in
      let r : j % 8 ≡ j - 8 * byte = omega arith in ap₂ (λ i k. bit (m i) k) e r

  byte_full :
      (byte : ℕ)
      → ((k : ℕ) → k < 8 → bit (m byte) k ≡ true)
      → (j : ℕ) → 8 * byte ≤ j
      → j < 8 * suc byte
      → is_pageframe_used m j ≡ true
  byte_full byte full j lo hi = byte_page byte j lo hi ∙ full (j - 8 * byte) (omega arith)

  byte_found :
      (byte k left : ℕ)
      → Lowest (bit (m byte)) 0 8 (some k)
      → Lowest (is_pageframe_used m) (8 * byte) (8 * (byte + suc left)) (some (8 * byte + k))
  byte_found byte k left (lo, hi, here, before) =
      let e : 8 * byte + k - 8 * byte ≡ k = omega arith in
      (
        omega arith,
        omega arith,
        byte_page byte (8 * byte + k) (omega arith) (omega arith) ∙ (ap (bit (m byte)) e ∙ here),
        λ j l h.
            byte_page byte j l (omega arith) ∙ before (j - 8 * byte) (omega arith) (omega arith),
      )

  -- A byte whose bits are all set is passed over.
  byte_passed :
      (byte left : ℕ) (found : Option ℕ)
      → ((k : ℕ) → k < 8 → bit (m byte) k ≡ true)
      → Lowest (is_pageframe_used m) (8 * suc byte) (8 * (suc byte + left)) found
      → Lowest (is_pageframe_used m) (8 * byte) (8 * (byte + suc left)) found
  byte_passed byte left found full later =
      let last : 8 * (suc byte + left) ≡ 8 * (byte + suc left) = omega arith in
      Lowest-later (is_pageframe_used m) (8 * byte) (8 * suc byte) (8 * (byte + suc left)) found
        (omega arith) (byte_full byte full)
        (subst (λ n. Lowest (is_pageframe_used m) (8 * suc byte) n found) last later)

  pub clear_page-Lowest :
      (byte left : ℕ)
      → Lowest (is_pageframe_used m) (8 * byte) (8 * (byte + left)) (clear_page m byte left)
  unfolding clear_page
  clear_page-Lowest byte zero = λ j lo hi. absurd (omega arith)
  clear_page-Lowest byte (suc left) =
      let bits = clear_bit-Lowest (m byte) 0 8 in
      let later = clear_page-Lowest (suc byte) left in
      elim (Bool-cases (m byte == 0xFF)) [
        | inl e ↦
            rw (e, clear_page)
              (byte_passed byte left (clear_page m (suc byte) left)
                (λ k h. rw (==→eq (m byte) 0xFF e) (bit-full k h)) later)
        | inr e ↦ elim (Option-cases (clear_bit (m byte) 0 8)) [
          | inl full ↦
              rw (e, full, clear_page)
                (byte_passed byte left (clear_page m (suc byte) left)
                  (λ k h. subst (Lowest (bit (m byte)) 0 8) full bits k (omega arith) h) later)
          | inr (k, found) ↦
              rw (e, found, clear_page)
                (byte_found byte k left (subst (Lowest (bit (m byte)) 0 8) found bits))
        ]
      ]
