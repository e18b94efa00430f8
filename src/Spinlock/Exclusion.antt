-- ===== src/Spinlock/Exclusion.antt =====
-- Threads that share a spinlock: any interleaving of their calls.
use asterisk.Base.{
  ℕ, ◌≡◌, ◌∙◌, inl, inr, sym, refl, ap, Bool, true, false, ◌==◌, ==_refl, ==→eq, if◌then◌else◌,
  Bool-cases,
}
use asterisk.Spinlock.{spinlock_init, spinlock_lock_round, spinlock_try_lock, spinlock_unlock}

-- The lock, and which threads are between a lock that succeeded and the unlock.
pub record Threads : Type 0 where
  pub spinlock : ℕ
  pub inside : ℕ → Bool

abbrev pub now : (ℕ → Bool) → ℕ → Bool → ℕ → Bool
now inside i b j = if j == i then b else inside j

-- Thread `i` waits in a round of `spinlock_lock`, tries once, or unlocks.
pub data Step : Threads → Threads → Type 0 where
  locks :
      (s : Threads) (i : ℕ)
      → s.inside i ≡ false
      → Step s (
          let (ok, l) = spinlock_lock_round s.spinlock in
          record { spinlock = l; inside = now s.inside i ok })
  tries :
      (s : Threads) (i : ℕ)
      → s.inside i ≡ false
      → Step s (
          let (ok, l) = spinlock_try_lock s.spinlock in
          record { spinlock = l; inside = now s.inside i ok })
  unlocks :
      (s : Threads) (i : ℕ)
      → s.inside i ≡ true
      → Step s (record { spinlock = spinlock_unlock; inside = now s.inside i false })

abbrev pub started : Threads
started = record { spinlock = spinlock_init; inside = λ i. false }

pub data Reachable : Threads → Type 0 where
  start : Reachable started
  step : {s t : Threads} → Reachable s → Step s t → Reachable t

-- Who is inside is known from the lock.
data Known (s : Threads) : Type 0 where
  nobody : s.spinlock ≡ 0 → ((j : ℕ) → s.inside j ≡ false) → Known s
  holder :
      (i : ℕ) → s.spinlock ≡ 1 → s.inside i ≡ true → ((j : ℕ) → s.inside j ≡ true → j ≡ i) → Known s

clash : {b : Bool} → b ≡ true → b ≡ false → ⊥
clash p q = cc

now_self : (inside : ℕ → Bool) (i : ℕ) (b : Bool) → now inside i b i ≡ b
now_self inside i b = rw (==_refl i) refl

now_other :
    (inside : ℕ → Bool) (i j : ℕ) (b : Bool) → (j == i) ≡ false → now inside i b j ≡ inside j
now_other inside i j b e = rw e refl

-- After thread `i` has taken the lock.
taken :
    (s : Threads) (i : ℕ)
    → ((j : ℕ) → s.inside j ≡ false)
    → Known (record { spinlock = 1; inside = now s.inside i true })
taken s i out = holder i refl (now_self s.inside i true) (λ j h. elim (Bool-cases (j == i)) [
  | inl e ↦ ==→eq j i e
  | inr e ↦ absurd (clash h (now_other s.inside i j true e ∙ out j))
])

-- Thread `i`, which is not inside, has stayed out.
module _ (s : Threads) (i k : ℕ) (out : s.inside i ≡ false) (h : s.inside k ≡ true)
    (only : (j : ℕ) → s.inside j ≡ true → j ≡ k) where
  refused : Known (record { spinlock = 1; inside = now s.inside i false })
  refused = holder k refl still (λ j p. elim (Bool-cases (j == i)) [
    | inl e ↦ absurd (clash p (rw e refl))
    | inr e ↦ only j (sym (now_other s.inside i j false e) ∙ p)
  ])
    where
      still : now s.inside i false k ≡ true
      still = elim (Bool-cases (k == i)) [
        | inl e ↦ absurd (clash h (ap s.inside (==→eq k i e) ∙ out))
        | inr e ↦ now_other s.inside i k false e ∙ h
      ]

-- After the holder has left.
left :
    (s : Threads) (i k : ℕ)
    → s.inside i ≡ true
    → ((j : ℕ) → s.inside j ≡ true → j ≡ k)
    → Known (record { spinlock = 0; inside = now s.inside i false })
left s i k h only = nobody refl (λ j. elim (Bool-cases (j == i)) [
  | inl e ↦ rw e refl
  | inr e ↦ elim (Bool-cases (s.inside j)) [
    | inl p ↦ absurd (clash (rw (only j p ∙ sym (only i h)) (==_refl i)) e)
    | inr p ↦ now_other s.inside i j false e ∙ p
  ]
])

Step-Known : {s t : Threads} → Step s t → Known s → Known t
unfolding spinlock_lock_round spinlock_try_lock spinlock_unlock
Step-Known (locks s i out) (nobody e all_out) = rw e (taken s i all_out)
Step-Known (locks s i out) (holder k e h only) = rw e (refused s i k out h only)
Step-Known (tries s i out) (nobody e all_out) = rw e (taken s i all_out)
Step-Known (tries s i out) (holder k e h only) = rw e (refused s i k out h only)
Step-Known (unlocks s i h) (nobody e all_out) = absurd (clash h (all_out i))
Step-Known (unlocks s i h) (holder k e p only) = left s i k h only

Reachable-Known : {s : Threads} → Reachable s → Known s
unfolding spinlock_init
Reachable-Known start = nobody refl (λ j. refl)
Reachable-Known (step r st) = Step-Known st (Reachable-Known r)

-- What the lock promises.
pub record Exclusive (s : Threads) : Type 0 where
  pub one : (i j : ℕ) → s.inside i ≡ true → s.inside j ≡ true → i ≡ j
  pub free : ((j : ℕ) → s.inside j ≡ false) → (spinlock_try_lock s.spinlock).0 ≡ true
  pub busy : (i : ℕ) → s.inside i ≡ true → (spinlock_try_lock s.spinlock).0 ≡ false

-- However the calls of any number of threads interleave, from a new lock on, where only a thread
-- that is outside locks and only one that is inside unlocks: no two threads are inside at once, the
-- next attempt succeeds if nobody is inside, and fails if anyone is.
pub Reachable-Exclusive : {s : Threads} → Reachable s → Exclusive s
unfolding spinlock_try_lock
Reachable-Exclusive {s} r = elim (Reachable-Known r) [
  | nobody e all_out ↦ record {
    one = λ i j p q. absurd (clash p (all_out i));
    free = λ h. rw e refl;
    busy = λ i p. absurd (clash p (all_out i));
  }
  | holder k e h only ↦ record {
    one = λ i j p q. only i p ∙ sym (only j q);
    free = λ all_out. absurd (clash h (all_out k));
    busy = λ i p. rw e refl;
  }
]
