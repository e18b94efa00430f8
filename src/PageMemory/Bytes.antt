-- ===== src/PageMemory/Bytes.antt =====
-- The bits of a byte under the C operators of the page bitmaps.
use asterisk.Base.{
  ℕ, zero, suc, ◌-◌, ◌^◌, ◌<◌, ◌≡◌, sym, refl, arith, Bool, true, false, not, ◌&&◌, ◌||◌, ◌==◌, ltb,
  ltb→lt,
}
use Prim.Native.Nat.{bit_and, bit_or}

-- `(b & (1 << k)) != 0`
abbrev pub bit : ℕ → ℕ → Bool
bit b k = not (bit_and b (2 ^ k) == 0)

all_below : ℕ → (ℕ → Bool) → Bool
all_below zero p = true
all_below (suc n) p = p n && all_below n p

all_below-at : (n : ℕ) (p : ℕ → Bool) (x : ℕ) → all_below n p ≡ true → x < n → p x ≡ true
unfolding all_below
all_below-at zero p x h lt = absurd (omega arith)
all_below-at (suc n) p x h lt = ground (arith, all_below-at n p x)

abbrev same : Bool → Bool → Bool
same true b = b
same false b = not b

same-eq : (a b : Bool) → same a b ≡ true → a ≡ b
same-eq true b h = sym h
same-eq false true h = absurd (cc)
same-eq false false h = refl

-- A fact about a byte and two places of bits, from its table.
abbrev tabled : (ℕ → ℕ → ℕ → Bool) → Bool
tabled p = all_below 256 (λ b. all_below 8 (λ k. all_below 8 (p b k)))

tabled-at :
    (p : ℕ → ℕ → ℕ → Bool)
    → tabled p ≡ true
    → (b k j : ℕ) → b < 256
    → k < 8
    → j < 8
    → p b k j ≡ true
tabled-at p h b k j lb lk lj =
    all_below-at 8 (p b k) j
      (all_below-at 8 (λ k. all_below 8 (p b k)) k
        (all_below-at 256 (λ b. all_below 8 (λ k. all_below 8 (p b k))) b h lb) lk)
      lj

set_table : tabled (λ b k j. same (bit (bit_or b (2 ^ k)) j) ((j == k) || bit b j)) ≡ true
unfolding all_below
set_table = refl

unset_table :
    tabled (λ b k j. same (bit (bit_and b (255 - 2 ^ k)) j) (not (j == k) && bit b j)) ≡ true
unfolding all_below
unset_table = refl

byte_table :
    tabled (λ b k j. ltb (bit_or b (2 ^ k)) 256 && ltb (bit_and b (255 - 2 ^ k)) 256) ≡ true
unfolding all_below
byte_table = refl

pub bit-bit_or :
    (b k j : ℕ) → b < 256 → k < 8 → j < 8 → bit (bit_or b (2 ^ k)) j ≡ ((j == k) || bit b j)
bit-bit_or b k j lb lk lj = same-eq _ _ (
    tabled-at (λ b k j. same (bit (bit_or b (2 ^ k)) j) ((j == k) || bit b j)) set_table b k j lb lk
      lj)

pub bit-bit_and :
    (b k j : ℕ)
    → b < 256
    → k < 8
    → j < 8
    → bit (bit_and b (255 - 2 ^ k)) j ≡ (not (j == k) && bit b j)
bit-bit_and b k j lb lk lj = same-eq _ _ (
    tabled-at (λ b k j. same (bit (bit_and b (255 - 2 ^ k)) j) (not (j == k) && bit b j))
      unset_table b k j lb lk lj)

both : (a b : Bool) → (a && b) ≡ true → (a ≡ true) × (b ≡ true)
both true true h = (refl, refl)
both true false h = absurd (cc)
both false b h = absurd (cc)

pub byte-bits :
    (b k : ℕ) → b < 256 → k < 8 → (bit_or b (2 ^ k) < 256) × (bit_and b (255 - 2 ^ k) < 256)
byte-bits b k lb lk =
    let (l, r) = both (ltb (bit_or b (2 ^ k)) 256) _ (
      tabled-at (λ b k j. ltb (bit_or b (2 ^ k)) 256 && ltb (bit_and b (255 - 2 ^ k)) 256)
        byte_table b k 0 lb lk (omega arith)) in
    (ltb→lt (bit_or b (2 ^ k)) 256 l, ltb→lt (bit_and b (255 - 2 ^ k)) 256 r)

full_table : all_below 8 (bit 255) ≡ true
unfolding all_below
full_table = refl

pub bit-full : (j : ℕ) → j < 8 → bit 255 j ≡ true
bit-full j h = all_below-at 8 (bit 255) j full_table h

none_table : all_below 8 (λ j. not (bit 0 j)) ≡ true
unfolding all_below
none_table = refl

pub bit-none : (j : ℕ) → j < 8 → bit 0 j ≡ false
bit-none j h = not_true (bit 0 j) (all_below-at 8 (λ j. not (bit 0 j)) j none_table h)
  where
    not_true : (b : Bool) → not b ≡ true → b ≡ false
    not_true true e = sym e
    not_true false e = refl
