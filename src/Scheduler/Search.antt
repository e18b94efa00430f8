-- ===== src/Scheduler/Search.antt =====
-- The search for a thread that can run.
use asterisk.Base.{
  ℕ, zero, suc, ◌+◌, ◌≤◌, ◌<◌, ◌≡◌, ◌∙◌, inl, inr, sym, refl, ap, subst, arith, Bool, Bool-cases,
  true, false, List, [], ◌∷◌, ◌++◌, Option, none, some, take, drop, length,
}
use asterisk.Scheduler.{
  Thread, ThreadState, ts_run, ts_waitio, ts_waitchild, ts_sleep, ts_select, ts_suspend,
  ts_critical, ts_uninterruptible, ts_dead, is_run, thread_update_state, first_ready,
}

-- The thread at place `i` is in state TS_RUN.
abbrev pub runs : List Thread → ℕ → Bool
runs [] i = false
runs (t ∷ ts) zero = is_run t.state
runs (t ∷ ts) (suc i) = runs ts i

pub runs-drop : (m : ℕ) (ts : List Thread) (i : ℕ) → runs (drop m ts) i ≡ runs ts (m + i)
runs-drop zero ts i = let e : i ≡ 0 + i = omega arith in ap (runs ts) e
runs-drop (suc m) [] i = refl
runs-drop (suc m) (t ∷ ts) i =
    let e : suc (m + i) ≡ suc m + i = omega arith in runs-drop m ts i ∙ ap (runs (t ∷ ts)) e

pub runs-take : (m : ℕ) (ts : List Thread) (i : ℕ) → i < m → runs (take m ts) i ≡ runs ts i
runs-take zero ts i h = absurd (omega arith)
runs-take (suc m) [] i h = refl
runs-take (suc m) (t ∷ ts) zero h = refl
runs-take (suc m) (t ∷ ts) (suc i) h = runs-take m ts i (omega arith)

pub runs-prefix : (xs ys : List Thread) (i : ℕ) → i < length xs → runs (xs ++ ys) i ≡ runs xs i
runs-prefix [] ys i h = absurd (omega arith)
runs-prefix (x ∷ xs) ys zero h = refl
runs-prefix (x ∷ xs) ys (suc i) h = runs-prefix xs ys i (omega arith)

pub runs-length : (ts : List Thread) (i : ℕ) → runs ts i ≡ true → i < length ts
runs-length [] i e = absurd (cc)
runs-length (t ∷ ts) zero e = omega arith
runs-length (t ∷ ts) (suc i) e = omega (arith, runs-length ts i e)

run_state : (s : ThreadState) → is_run s ≡ true → s ≡ ts_run
run_state ts_run e = refl
run_state ts_waitio e = absurd (cc)
run_state ts_waitchild e = absurd (cc)
run_state ts_sleep e = absurd (cc)
run_state ts_select e = absurd (cc)
run_state ts_suspend e = absurd (cc)
run_state ts_critical e = absurd (cc)
run_state ts_uninterruptible e = absurd (cc)
run_state ts_dead e = absurd (cc)

-- What `first_ready` may find in `ts`.
abbrev pub Ready : List Thread → Option ℕ × List Thread → Type 0
Ready ts (none, ts') = (length ts' ≡ length ts) × ((i : ℕ) → runs ts' i ≡ false)
Ready ts (some k, ts') =
    (length ts' ≡ length ts) × (runs ts' k ≡ true) × ((i : ℕ) → i < k → runs ts' i ≡ false)

Ready-later :
    (t t' : Thread) (ts : List Thread) (found : Option ℕ) (ts' : List Thread)
    → is_run t'.state ≡ false
    → Ready ts (found, ts')
    → Ready (t ∷ ts) (elim found [ none ↦ none | some k ↦ some (suc k) ], t' ∷ ts')
Ready-later t t' ts none ts' p (n, out) = (ap suc n, at)
  where
    at : (i : ℕ) → runs (t' ∷ ts') i ≡ false
    at zero = p
    at (suc i) = out i
Ready-later t t' ts (some k) ts' p (n, here, before) = (ap suc n, here, at)
  where
    at : (i : ℕ) → i < suc k → runs (t' ∷ ts') i ≡ false
    at zero h = p
    at (suc i) h = before i (omega arith)

module _ (select_update : Thread → Thread) (uptime : ℕ) where
  update_run :
      (t : Thread)
      → is_run t.state ≡ true
      → is_run (thread_update_state select_update uptime t).state ≡ true
  update_run t e = rw (run_state t.state e) refl

  -- A thread that can run is found, or one before it.
  pub first_ready-finds :
      (ts : List Thread) (i : ℕ)
      → runs ts i ≡ true
      → (k : ℕ) × ((first_ready select_update uptime ts).0 ≡ some k) × (k ≤ i)
  unfolding first_ready
  first_ready-finds [] i e = absurd (cc)
  first_ready-finds (t ∷ ts) zero e = (0, rw (update_run t e, first_ready) refl, omega arith)
  first_ready-finds (t ∷ ts) (suc i) e =
      elim (Bool-cases (is_run (thread_update_state select_update uptime t).state)) [
        | inl p ↦ (0, rw (p, first_ready) refl, omega arith)
        | inr p ↦
            let (k, found, le) = first_ready-finds ts i e in
            (suc k, rw (p, first_ready) (rw found refl), omega (arith, le))
      ]

  first_ready-here :
      (t : Thread) (ts : List Thread)
      → is_run (thread_update_state select_update uptime t).state ≡ true
      → first_ready select_update uptime (t ∷ ts)
        ≡ (some 0, thread_update_state select_update uptime t ∷ ts)
  unfolding first_ready
  first_ready-here t ts p = rw (p, first_ready) refl

  first_ready-later :
      (t : Thread) (ts : List Thread)
      → is_run (thread_update_state select_update uptime t).state ≡ false
      → first_ready select_update uptime (t ∷ ts) ≡ (
          let (found, ts') = first_ready select_update uptime ts in
          (
            elim found [ none ↦ none | some k ↦ some (suc k) ],
            thread_update_state select_update uptime t ∷ ts',
          ))
  unfolding first_ready
  first_ready-later t ts p = rw (p, first_ready) refl

  -- The first that can run is found, if any can, after the updates; the others stay.
  pub first_ready-Ready : (ts : List Thread) → Ready ts (first_ready select_update uptime ts)
  unfolding first_ready
  first_ready-Ready [] = (refl, λ i. refl)
  first_ready-Ready (t ∷ ts) =
      elim (Bool-cases (is_run (thread_update_state select_update uptime t).state)) [
        | inl p ↦
            subst (Ready (t ∷ ts)) (sym (first_ready-here t ts p))
              (refl, p, λ i h. absurd (omega arith))
        | inr p ↦ subst (Ready (t ∷ ts)) (sym (first_ready-later t ts p)) (
            Ready-later t (thread_update_state select_update uptime t) ts
              (first_ready select_update uptime ts).0 (first_ready select_update uptime ts).1 p
              (first_ready-Ready ts))
      ]
