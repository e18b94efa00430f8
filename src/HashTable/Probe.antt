-- ===== src/HashTable/Probe.antt =====
-- The probe loop finds a cell that passes its test, whenever the table has one.
use asterisk.Base.{
  ℕ, zero, suc, ◌+◌, ◌-◌, ◌%◌, ◌^◌, ◌<◌, ◌≡◌, ◌∙◌, sym, ap, arith, Bool, true, false, none, some,
  inl, inr, Bool-cases,
}
use asterisk.HashTable.{HashTable, next_cell, probe}
use native.Mathlib.Decide.{dec_le}
use native.Mathlib.Nat.{mod-add-mod, mod-eq_of_lt, mod-eq-sub-mod, mod-lt, add-zero}

module _ (test : ℕ → Bool) (t : HashTable) (pos : 0 < t.capacity)
    (small : t.capacity < 2 ^ 31) where
  probe-hit : (n i : ℕ) → test i ≡ true → probe test t (suc n) i ≡ some i
  unfolding probe
  probe-hit n i hit = rw (hit, probe)

  probe-miss : (n i : ℕ) → test i ≡ false → probe test t (suc n) i ≡ probe test t n (next_cell t i)
  unfolding probe
  probe-miss n i miss = rw (miss, probe)

  next_cell-lt : (i : ℕ) → next_cell t i < t.capacity
  next_cell-lt i = mod-lt ((i + 1) % 2 ^ 32) pos

  pub probe-some :
      (n i j : ℕ) → i < t.capacity → probe test t n i ≡ some j → (test j ≡ true) × (j < t.capacity)
  unfolding probe
  probe-some zero i j h e = cc
  probe-some (suc n) i j h e = elim (Bool-cases (test i)) [
    | inl hit ↦ let found = probe-hit n i hit in let same : i ≡ j = cc in rw (← same) (hit, h)
    | inr miss ↦ probe-some n (next_cell t i) j (next_cell-lt i) (sym (probe-miss n i miss) ∙ e)
  ]

  -- A failed probe of `n` cells has tested the `n` cells from `i` on.
  pub probe-none :
      (n i k : ℕ)
      → i < t.capacity
      → probe test t n i ≡ none
      → k < n
      → test ((i + k) % t.capacity) ≡ false
  unfolding probe
  probe-none zero i k h e lt = absurd (omega arith)
  probe-none (suc n) i k h e lt = elim (Bool-cases (test i)) [
    | inl hit ↦ let found = probe-hit n i hit in cc
    | inr miss ↦ split k lt miss (λ k' lt'.
        probe-none n (next_cell t i) k' (next_cell-lt i) (sym (probe-miss n i miss) ∙ e) lt')
  ]
    where
      split :
          (k : ℕ)
          → k < suc n
          → test i ≡ false
          → ((k' : ℕ) → k' < n → test ((next_cell t i + k') % t.capacity) ≡ false)
          → test ((i + k) % t.capacity) ≡ false
      split zero lt miss rest = rw (add-zero, mod-eq_of_lt h) miss
      split (suc k) lt miss rest =
          let e₁ : (i + 1) % 2 ^ 32 ≡ i + 1 = omega arith in
          let e₂ : (i + 1) % t.capacity + k ≡ next_cell t i + k = rw e₁ in
          let e₃ : (i + suc k) % t.capacity ≡ (next_cell t i + k) % t.capacity =
            ap (λ m. m % t.capacity) (omega arith)
            ∙ sym (mod-add-mod (i + 1) t.capacity k)
            ∙ ap (λ m. m % t.capacity) e₂ in
          rw e₃ (rest k (omega arith))

  -- Every cell is less than `capacity` steps away.
  reach :
      (i j : ℕ)
      → i < t.capacity
      → j < t.capacity
      → (k : ℕ) × (k < t.capacity) × ((i + k) % t.capacity ≡ j)
  reach i j hi hj = elim (dec_le i j) [
    | yes up ↦ (j - i, omega arith, ap (λ m. m % t.capacity) (omega arith) ∙ mod-eq_of_lt hj)
    | no down ↦ (
      j + t.capacity - i,
      omega arith,
      mod-eq-sub-mod {n = i + (j + t.capacity - i)} {m = t.capacity} (omega arith)
          ∙ ap (λ m. m % t.capacity) (omega arith)
          ∙ mod-eq_of_lt hj,
    )
  ]

  -- A failed probe of `capacity` cells has tested every cell.
  pub probe-none-all :
      (i j : ℕ)
      → i < t.capacity
      → probe test t t.capacity i ≡ none
      → j < t.capacity
      → test j ≡ false
  probe-none-all i j h e hj =
      let (k, lt, at) = reach i j h hj in rw (← at) (probe-none t.capacity i k h e lt)
