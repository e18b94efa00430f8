-- ===== src/Scheduler/Signals/Killed.antt =====
-- What a signal that kills leaves of the threads.
use asterisk.Base.{
  if_both, inl, inr, leb, Option-cases, ℕ, zero, suc, ◌<◌, ◌≡◌, ◌∙◌, refl, ap, arith, Bool-cases,
  true, false, List, [], ◌∷◌, Option, none, some, lt→ltb, ◌==◌, get_or, if◌then◌else◌,
}
use asterisk.FifoBuffer.{fifobuffer_get_size, fifobuffer_dequeue}
use asterisk.Scheduler.{
  Thread, ts_waitchild, ts_sleep, ts_select, is_run, in_state, thread_update_state, first_ready,
  look_threads,
}
use asterisk.Scheduler.Signals.{
  without, child_gone, wake_parent, process_destroy, thread_at, set_thread, kills, take_signal,
}

-- The number of each thread, and that of its process.
abbrev pub who : List Thread → List (ℕ × ℕ)
who [] = []
who (t ∷ ts) = (t.thread_id, t.owner) ∷ who ts

-- The threads of other processes, in their order.
abbrev pub others : ℕ → List (ℕ × ℕ) → List (ℕ × ℕ)
others pid [] = []
others pid ((id, owner) ∷ xs) = if owner == pid then others pid xs else (id, owner) ∷ others pid xs

-- The first thread stays whichever process it is of.
abbrev pub survivors : ℕ → List (ℕ × ℕ) → List (ℕ × ℕ)
survivors pid [] = []
survivors pid (x ∷ xs) = x ∷ others pid xs

who-without : (pid : ℕ) (ts : List Thread) → who (without pid ts) ≡ others pid (who ts)
who-without pid [] = refl
who-without pid (t ∷ ts) = elim (Bool-cases (t.owner == pid)) [
  | inl e ↦ rw e (who-without pid ts)
  | inr e ↦ rw e (ap (λ xs. (t.thread_id, t.owner) ∷ xs) (who-without pid ts))
]

-- Two threads with the same number and process.
abbrev Same : Thread → Thread → Type 0
Same t u = (t.thread_id ≡ u.thread_id) × (t.owner ≡ u.owner)

who-cons :
    (t u : Thread) (ts us : List Thread) → Same t u → who ts ≡ who us → who (t ∷ ts) ≡ who (u ∷ us)
who-cons t u ts us (ids, owners) e = rw (ids, owners, e) refl

child_gone-Same : (parent : ℕ) (t : Thread) → Same (child_gone parent t) t
child_gone-Same parent t =
    if_both (λ u. Same u t) (t.owner == parent)
      (if_both (λ u. Same u t) (in_state t ts_waitchild) (refl, refl) (refl, refl)) (refl, refl)

who-wake_parent : (parent : Option ℕ) (ts : List Thread) → who (wake_parent parent ts) ≡ who ts
who-wake_parent none ts = refl
who-wake_parent (some parent) [] = refl
who-wake_parent (some parent) (t ∷ ts) =
    who-cons (child_gone parent t) t (wake_parent (some parent) ts) ts (child_gone-Same parent t)
      (who-wake_parent (some parent) ts)

who-process_destroy :
    (pid : ℕ) (parent : Option ℕ) (ts : List Thread)
    → who (process_destroy pid parent ts) ≡ survivors pid (who ts)
unfolding process_destroy
who-process_destroy pid parent [] = refl
who-process_destroy pid parent (t ∷ ts) =
    who-wake_parent parent (t ∷ without pid ts)
    ∙ ap (λ xs. (t.thread_id, t.owner) ∷ xs) (who-without pid ts)

who-set_thread :
    (ts : List Thread) (j : ℕ) (t u : Thread)
    → thread_at ts j ≡ some t
    → Same u t
    → who (set_thread ts j u) ≡ who ts
who-set_thread [] j t u e same = refl
who-set_thread (x ∷ ts) zero t u e same =
    let e' : x ≡ t = cc in let same' : Same u x = rw e' same in who-cons u x ts ts same' refl
who-set_thread (x ∷ ts) (suc j) t u e same =
    ap (λ xs. (x.thread_id, x.owner) ∷ xs) (who-set_thread ts j t u e same)

module _ (select_update : Thread → Thread) (uptime : ℕ)
    (keeps : (t : Thread) → Same (select_update t) t) where
  update-Same : (t : Thread) → Same (thread_update_state select_update uptime t) t
  update-Same t =
      let t' = select_update t in
      let sleeping =
        if_both (λ u. Same u t) (leb t.state_private_data uptime) (refl, refl) (refl, refl) in
      let selecting = if_both (λ u. Same u t) t'.select_finished (keeps t) (keeps t) in
      if_both (λ u. Same u t) (in_state t ts_sleep) sleeping
        (if_both (λ u. Same u t) (in_state t ts_select) selecting (refl, refl))

  who-first_ready : (ts : List Thread) → who (first_ready select_update uptime ts).1 ≡ who ts
  unfolding first_ready
  who-first_ready [] = refl
  who-first_ready (t ∷ ts) =
      let t' = thread_update_state select_update uptime t in
      elim (Bool-cases (is_run t'.state)) [
        | inl e ↦ rw (e, who) (who-cons t' t ts ts (update-Same t) refl)
        | inr e ↦
            rw (e, who)
              (who-cons t' t (first_ready select_update uptime ts).1 ts (update-Same t)
                (who-first_ready ts))
      ]

  who-look_threads : (ts : List Thread) → who (look_threads select_update uptime ts 0).1 ≡ who ts
  unfolding look_threads first_ready
  who-look_threads [] = refl
  who-look_threads (t ∷ ts) =
      let (found, after) = first_ready select_update uptime ts in
      elim (Option-cases found) [
        | inl e ↦ rw (e, who) (ap (λ xs. (t.thread_id, t.owner) ∷ xs) (who-first_ready ts))
        | inr (k, e) ↦ rw (e, who) (ap (λ xs. (t.thread_id, t.owner) ∷ xs) (who-first_ready ts))
      ]

  -- If the next signal of the chosen thread kills, then afterwards all threads of its process but
  -- the first thread of the system are gone, and the others are there in their order; this is if
  -- `select_update` keeps a thread's number and process.
  pub take_signal-kills :
      (ts : List Thread) (j : ℕ) (t : Thread)
      → thread_at ts j ≡ some t
      → 0 < j
      → 0 < fifobuffer_get_size t.signals
      → kills (get_or (fifobuffer_dequeue t.signals 1).1 0 0) ≡ true
      → who (take_signal select_update uptime (j, ts)).1 ≡ survivors t.owner (who ts)
  unfolding take_signal
  take_signal-kills ts j t at other pending killing =
      let (_, _, signals') = fifobuffer_dequeue t.signals 1 in
      let t' = record t {
        signals = signals';
        pending_signal_count = fifobuffer_get_size signals';
      } in
      let not_first : (j == 0) ≡ false = ground arith in
      rw (at, take_signal, not_first, lt→ltb 0 (fifobuffer_get_size t.signals) pending, killing)
        (who-look_threads (process_destroy t.owner t.parent (set_thread ts j t'))
          ∙ (who-process_destroy t.owner t.parent (set_thread ts j t')
              ∙ ap (survivors t.owner) (who-set_thread ts j t t' at (refl, refl))))
