-- ===== src/Scheduler/Fair.antt =====
-- Every thread that can run gets its turn.
use asterisk.Base.{
  ℕ, zero, suc, ◌+◌, ◌-◌, ◌≤◌, ◌<◌, ◌≡◌, ◌∙◌, ◌⊎◌, inl, inr, sym, refl, ap, subst, arith,
  Bool-cases, Option-cases, true, false, List, ◌++◌, Option, none, some, ltb, ltb→lt, ltb→le, ◌==◌,
  if◌then◌else◌, take, drop, length, length-take, length-drop,
}
use asterisk.Scheduler.{Thread, first_ready, look_again, look_threads}
use asterisk.Scheduler.Search.{
  runs, runs-drop, runs-take, runs-prefix, runs-length, Ready, first_ready-finds, first_ready-Ready,
}

-- How far the place `i` is behind `c`, in the order in which `look_threads` goes through `n`
-- threads.
unfoldable pub gap : ℕ → ℕ → ℕ → ℕ
gap n c i = if ltb c i then i - c else (n - 1 - c) + i

gap_range : (n c i : ℕ) → 0 < i → c < n → (0 < gap n c i) × (i < n → gap n c i ≤ n - 1)
unfolding gap
gap_range n c i other inside = (ground arith, λ h. ground arith)

abbrev Nearer : ℕ → ℕ → ℕ → ℕ → Type 0
Nearer n c i j = (j < n) × ((j ≡ i) ⊎ (gap n j i < gap n c i))

-- Where the two loops end.
module _ (select_update : Thread → Thread) (uptime : ℕ) (ts : List Thread) (c : ℕ) where
  look-ahead :
      (k : ℕ)
      → (first_ready select_update uptime (drop (suc c) ts)).0 ≡ some k
      → (look_threads select_update uptime ts c).0 ≡ suc c + k
  unfolding look_threads
  look-ahead k found = rw (found, look_threads) refl

  abbrev updated : List Thread
  updated = take (suc c) ts ++ (first_ready select_update uptime (drop (suc c) ts)).1

  look-around :
      (k : ℕ)
      → 0 < c
      → (first_ready select_update uptime (drop (suc c) ts)).0 ≡ none
      → (first_ready select_update uptime (take c (drop 1 updated))).0 ≡ some k
      → (look_threads select_update uptime ts c).0 ≡ suc k
  unfolding look_threads
  look-around k behind none_ahead found =
      let e : (c == 0) ≡ false = ground arith in
      rw (none_ahead, look_threads) (rw e (rw (found, look_again) refl))

module _ (select_update : Thread → Thread) (uptime : ℕ) (ts : List Thread) (c i : ℕ)
    (inside : c < length ts) (other : 0 < i) (ready : runs ts i ≡ true) where
  -- The thread is behind the current one.
  ahead : c < i → Nearer (length ts) c i (look_threads select_update uptime ts c).0
  unfolding gap
  ahead h =
      let at : suc c + (i - suc c) ≡ i = omega arith in
      let (k, found, le) =
        first_ready-finds select_update uptime (drop (suc c) ts) (i - suc c)
          (runs-drop (suc c) ts (i - suc c) ∙ ap (runs ts) at ∙ ready) in
      let n = runs-length ts i ready in
      let j = look-ahead select_update uptime ts c k found in
      (omega (arith, n, le, j), ground (arith, le, h, n, j))

  -- The thread is the current one or one before it, and another is found behind the current one.
  skipped :
      (k : ℕ)
      → i ≤ c
      → (first_ready select_update uptime (drop (suc c) ts)).0 ≡ some k
      → k < length (drop (suc c) ts)
      → Nearer (length ts) c i (look_threads select_update uptime ts c).0
  unfolding gap
  skipped k h found lt =
      let n = length-drop (suc c) ts in
      let j = look-ahead select_update uptime ts c k found in
      (omega (arith, n, lt, j), ground (arith, n, lt, h, inside, j))

  -- The thread is the current one or one before it, and none behind the current one can run.
  around :
      i ≤ c
      → (first_ready select_update uptime (drop (suc c) ts)).0 ≡ none
      → Nearer (length ts) c i (look_threads select_update uptime ts c).0
  unfolding gap
  around h none_ahead =
      let at : 1 + (i - 1) ≡ i = omega arith in
      let front : length (take (suc c) ts) ≡ suc c = omega (arith, length-take (suc c) ts) in
      let there : runs (take c (drop 1 (updated select_update uptime ts c))) (i - 1) ≡ true =
        runs-take c (drop 1 (updated select_update uptime ts c)) (i - 1) (omega arith)
        ∙ runs-drop 1 (updated select_update uptime ts c) (i - 1)
        ∙ ap (runs (updated select_update uptime ts c)) at
        ∙ runs-prefix (take (suc c) ts) _ i (omega (arith, front))
        ∙ runs-take (suc c) ts i (omega arith)
        ∙ ready in
      let (k, found, le) =
        first_ready-finds select_update uptime (take c (drop 1 (updated select_update uptime ts c)))
          (i - 1) there in
      let j = look-around select_update uptime ts c k (omega arith) none_ahead found in
      (omega (arith, le, j), ground (arith, le, h, inside, j))

some_inside :
    (ts : List Thread) (k : ℕ) (out : Option ℕ × List Thread)
    → Ready ts out
    → out.0 ≡ some k
    → k < length ts
some_inside ts k (none, ts') r e = absurd (cc)
some_inside ts k (some m, ts') r e =
    let same : m ≡ k = some_injective e in omega (arith, r.0, runs-length ts' m r.1, same)
  where
    some_injective : some m ≡ some k → m ≡ k
    some_injective e = cc

-- One call of `look_threads` chooses the thread or brings its turn nearer.
pub look_threads-Nearer :
    (select_update : Thread → Thread) (uptime : ℕ) (ts : List Thread) (c i : ℕ)
    → c < length ts
    → 0 < i
    → runs ts i ≡ true
    → Nearer (length ts) c i (look_threads select_update uptime ts c).0
look_threads-Nearer select_update uptime ts c i inside other ready = elim (Bool-cases (ltb c i)) [
  | inl h ↦ ahead select_update uptime ts c i inside other ready (ltb→lt _ _ h)
  | inr h ↦ elim (Option-cases (first_ready select_update uptime (drop (suc c) ts)).0) [
    | inl nobody ↦ around select_update uptime ts c i inside other ready (ltb→le _ _ h) nobody
    | inr (k, found) ↦
        skipped select_update uptime ts c i inside other ready k (ltb→le _ _ h) found (
          some_inside (drop (suc c) ts) k _
            (first_ready-Ready select_update uptime (drop (suc c) ts)) found)
  ]
]

-- The chosen thread after each round, from the current thread `c` on: `threads k` are the threads
-- and `uptimes k` is the time when round `k` begins.
module _ (select_update : Thread → Thread) (uptimes : ℕ → ℕ) (threads : ℕ → List Thread)
    (c : ℕ) where
  unfoldable pub turn : ℕ → ℕ
  turn zero = c
  turn (suc k) = (look_threads select_update (uptimes k) (threads k) (turn k)).0

  module _ (n i : ℕ) (constant : (k : ℕ) → length (threads k) ≡ n)
      (ready : (k : ℕ) → runs (threads k) i ≡ true) (other : 0 < i) where
    turn-Nearer : (k : ℕ) → turn k < n → Nearer n (turn k) i (turn (suc k))
    unfolding turn
    turn-Nearer k inside =
        let next = (look_threads select_update (uptimes k) (threads k) (turn k)).0 in
        subst (λ m. Nearer m (turn k) i next) (constant k)
          (look_threads-Nearer select_update (uptimes k) (threads k) (turn k) i
            (omega (arith, constant k, inside)) other (ready k))

    turn_within :
        (bound k : ℕ)
        → turn k < n
        → gap n (turn k) i ≤ bound
        → (d : ℕ) × (d < bound) × (turn (suc (k + d)) ≡ i)
    turn_within zero k inside h = absurd (omega (arith, (gap_range n (turn k) i other inside).0, h))
    turn_within (suc bound) k inside h = elim (turn-Nearer k inside).1 [
      | inl here ↦
          (0, omega arith, let e : k + 0 ≡ k = omega arith in ap (λ m. turn (suc m)) e ∙ here)
      | inr nearer ↦
          let (d, lt, there) =
            turn_within bound (suc k) (turn-Nearer k inside).0 (omega (arith, nearer, h)) in
          (
            suc d,
            omega (arith, lt),
            let e : k + suc d ≡ suc k + d = omega arith in ap (λ m. turn (suc m)) e ∙ there,
          )
    ]

    -- However the other threads change between the rounds, a thread that is not the first one and
    -- can run at the start of every round, among `n` threads in each, is chosen within n - 1
    -- rounds.
    pub look_threads-turn : c < n → (k : ℕ) × (k < n - 1) × (turn (suc k) ≡ i)
    unfolding turn gap
    look_threads-turn inside =
        let last = runs-length (threads 0) i (ready 0) in
        let (d, lt, there) = turn_within (gap n c i) 0 inside (omega arith) in
        let e : 0 + d ≡ d = omega arith in
        (
          d,
          omega (arith, lt, (gap_range n c i other inside).1 (omega (arith, last, constant 0))),
          ap (λ m. turn (suc m)) (sym e) ∙ there,
        )
