-- ===== src/Scheduler/Sleep.antt =====
-- kernel/sleep.c, and when a sleeping thread is resumed.
use asterisk.Base.{
  ℕ, ◌+◌, ◌%◌, ◌^◌, ◌≡◌, ◌≤◌, ◌<◌, ◌∙◌, sym, refl, ap, arith, Bool, Bool-cases, inl, inr, true,
  false, ◌||◌, leb, leb→le, leb→gt, if◌then◌else◌,
}
use asterisk.Scheduler.{
  Thread, ts_run, ts_sleep, thread_change_state, thread_resume, thread_update_state,
}

-- What sleep_ms does to the thread before it waits; `uptime` is the time then.
abbrev pub sleep_ms : Thread → (uptime ms : ℕ) → Thread
sleep_ms t uptime ms = thread_change_state t ts_sleep ((uptime + ms) % 2 ^ 32)

-- The test of the time, with the wrap-around of the time to wake at.
time_has_come :
    (uptime ms now : ℕ)
    → uptime ≤ now
    → now < 2 ^ 32
    → ms < 2 ^ 32
    → leb ((uptime + ms) % 2 ^ 32) now ≡ (leb (uptime + ms) now || leb (2 ^ 32) (uptime + ms))
time_has_come uptime ms now later small short = elim (Bool-cases (leb (2 ^ 32) (uptime + ms))) [
  | inl wraps ↦
      (let over : 2 ^ 32 ≤ uptime + ms = leb→le (2 ^ 32) (uptime + ms) wraps in
        let at_once : (uptime + ms) % 2 ^ 32 ≤ now = omega (arith, over, later, small, short) in
        past ((uptime + ms) % 2 ^ 32) (leb (uptime + ms) now) at_once wraps)
  | inr fits ↦
      (let under : uptime + ms < 2 ^ 32 = leb→gt (2 ^ 32) (uptime + ms) fits in
        let kept : (uptime + ms) % 2 ^ 32 ≡ uptime + ms = omega (arith, under) in
        ap (λ r. leb r now) kept
        ∙ neither (leb (uptime + ms) now) (leb (2 ^ 32) (uptime + ms)) fits)
]
  where
    past :
        (r : ℕ) (b : Bool)
        → r ≤ now
        → leb (2 ^ 32) (uptime + ms) ≡ true
        → leb r now ≡ (b || leb (2 ^ 32) (uptime + ms))
    past r true le e = ground arith
    past r false le e = (let yes : leb r now ≡ true = ground arith in yes ∙ sym e)

    neither : (b c : Bool) → c ≡ false → b ≡ (b || c)
    neither true c e = refl
    neither false c e = sym e

-- A thread that sleeps is made runnable by an update at a later time `now` if the time to wake has
-- come, and also if the time to wake is beyond 32 bits, whatever `now` is; otherwise it goes on
-- sleeping.
pub sleep_ms-update :
    (select_update : Thread → Thread) (t : Thread) (uptime ms now : ℕ)
    → uptime ≤ now
    → now < 2 ^ 32
    → ms < 2 ^ 32
    → thread_update_state select_update now (sleep_ms t uptime ms) ≡ (
        if leb (uptime + ms) now || leb (2 ^ 32) (uptime + ms)
        then record t { state = ts_run; state_private_data = 0 }
        else record t { state = ts_sleep; state_private_data = (uptime + ms) % 2 ^ 32 })
sleep_ms-update select_update t uptime ms now later small short =
    ap (λ b. if b then thread_resume (sleep_ms t uptime ms) else sleep_ms t uptime ms)
      (time_has_come uptime ms now later small short)
