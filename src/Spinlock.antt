-- ===== src/Spinlock.antt =====
-- kernel/spinlock.c: a lock that a thread takes by an atomic exchange.
pub mod Exclusion
mod Examples
use asterisk.Base.{ℕ, Bool, true, false, not, ◌==◌, if◌then◌else◌}

-- The lock is its `int32_t`. What is at the address before the exchange, and after.
abbrev pub exchange_atomic : ℕ → ℕ → ℕ × ℕ
exchange_atomic old new_value = (old, new_value)

unfoldable pub spinlock_init : ℕ
spinlock_init = 0

-- One round of the loop of `spinlock_lock`: whether the lock is taken, and the lock.
unfoldable pub spinlock_lock_round : ℕ → Bool × ℕ
spinlock_lock_round spinlock =
    let (old, spinlock') = exchange_atomic spinlock 1 in (old == 0, spinlock')

unfoldable pub spinlock_try_lock : ℕ → Bool × ℕ
spinlock_try_lock spinlock =
    let (old, spinlock') = exchange_atomic spinlock 1 in
    (if not (old == 0) then false else true, spinlock')

unfoldable pub spinlock_unlock : ℕ
spinlock_unlock = 0
