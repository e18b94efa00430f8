-- ===== src/Spinlock/Examples.antt =====
-- The theorem after one thread took the lock and another was turned away.
use asterisk.Base.{refl, true, false}
use asterisk.Spinlock.{spinlock_init, spinlock_lock_round, spinlock_try_lock}
use asterisk.Spinlock.Exclusion.{
  Threads, now, started, locks, tries, Reachable, start, step, Exclusive, Reachable-Exclusive,
}

abbrev contended : Threads
contended = record { spinlock = 1; inside = now (now (λ i. false) 3 true) 5 false }

contended-Reachable : Reachable contended
unfolding spinlock_init spinlock_lock_round spinlock_try_lock
contended-Reachable =
    step (step start (locks started 3 refl))
      (tries (record { spinlock = 1; inside = now (λ i. false) 3 true }) 5 refl)

Reachable-Exclusive_example : Exclusive contended
Reachable-Exclusive_example = Reachable-Exclusive contended-Reachable
