-- ===== src/Scheduler/Signals.antt =====
-- kernel/process.c: sending signals, and what `schedule` does with them.
pub mod Killed
use asterisk.Base.{
  ℕ, zero, suc, ◌+◌, ◌%◌, Bool, true, false, not, ◌&&◌, ◌||◌, List, [], ◌∷◌, Option, none, some,
  ltb, ◌==◌, if◌then◌else◌, length, get_or,
}
use asterisk.FifoBuffer.{
  FifoBuffer, fifobuffer_get_size, fifobuffer_get_free, fifobuffer_enqueue, fifobuffer_dequeue,
}
use asterisk.Scheduler.{
  Thread, ThreadState, ts_run, ts_waitio, ts_waitchild, ts_sleep, ts_select, ts_suspend,
  ts_critical, ts_uninterruptible, ts_dead, thread_resume, in_state, look_threads,
}

-- kernel/signal.h
abbrev pub sigint : ℕ
sigint = 2

abbrev pub sigill : ℕ
sigill = 4

abbrev pub sigkill : ℕ
sigkill = 9

abbrev pub sigsegv : ℕ
sigsegv = 11

abbrev pub sigterm : ℕ
sigterm = 15

abbrev pub sigcont : ℕ
sigcont = 18

abbrev pub sigstop : ℕ
sigstop = 19

abbrev pub sigtstp : ℕ
sigtstp = 20

abbrev pub signal_count : ℕ
signal_count = 32

abbrev pub continued : ThreadState → ThreadState
continued ts_suspend = ts_run
continued s = s

abbrev pub interrupted : ThreadState → ThreadState
interrupted ts_waitio = ts_run
interrupted s = s

unfoldable pub thread_signal : Thread → ℕ → Bool × Thread
thread_signal t signal =
    if ltb signal signal_count
    then (let t₁ = record t { state = if signal == sigcont then continued t.state else t.state } in
        if ltb 0 (fifobuffer_get_free t₁.signals)
        then (let signals' = (fifobuffer_enqueue t₁.signals (signal ∷ [])).1 in
            (
              true,
              record t₁ {
                signals = signals';
                pending_signal_count = fifobuffer_get_size signals';
                state = interrupted t₁.state;
              },
            ))
        else (false, t₁))
    else (false, t)

unfoldable pub process_signal : List Thread → (pid signal : ℕ) → Bool × List Thread
process_signal [] pid signal = (false, [])
process_signal (t ∷ ts) pid signal =
    let (sent, t') = thread_signal t signal in
    let (later, ts') = process_signal ts pid signal in
    if t.owner == pid
    then (if sent then (true, t' ∷ ts) else (later, t' ∷ ts'))
    else (later, t ∷ ts')

-- What `process_destroy` does to the threads: those of the process go, all but the first thread,
-- and those of the parent stop waiting for a child.
abbrev pub without : ℕ → List Thread → List Thread
without pid [] = []
without pid (t ∷ ts) = let ts' = without pid ts in if t.owner == pid then ts' else t ∷ ts'

abbrev pub child_gone : ℕ → Thread → Thread
child_gone parent t =
    if t.owner == parent then (if in_state t ts_waitchild then thread_resume t else t) else t

abbrev pub wake_parent : Option ℕ → List Thread → List Thread
wake_parent none ts = ts
wake_parent (some parent) [] = []
wake_parent (some parent) (t ∷ ts) = child_gone parent t ∷ wake_parent (some parent) ts

unfoldable pub process_destroy : (pid : ℕ) (parent : Option ℕ) → List Thread → List Thread
process_destroy pid parent [] = []
process_destroy pid parent (t ∷ ts) = wake_parent parent (t ∷ without pid ts)

abbrev pub thread_at : List Thread → ℕ → Option Thread
thread_at [] i = none
thread_at (t ∷ ts) zero = some t
thread_at (t ∷ ts) (suc i) = thread_at ts i

abbrev pub set_thread : List Thread → ℕ → Thread → List Thread
set_thread [] i t = []
set_thread (u ∷ ts) zero t = t ∷ ts
set_thread (u ∷ ts) (suc i) t = u ∷ set_thread ts i t

abbrev pub kills : ℕ → Bool
kills signal =
    signal == sigterm
    || signal == sigkill
    || signal == sigsegv
    || signal == sigint
    || signal == sigill

abbrev pub stops : ℕ → Bool
stops signal = signal == sigstop || signal == sigtstp

abbrev pub uninterruptible : Option Thread → Bool
uninterruptible none = false
uninterruptible (some t) = in_state t ts_uninterruptible

module _ (select_update : Thread → Thread) (uptime : ℕ) where
  -- The part of `schedule` that takes one signal of the chosen thread.
  unfoldable pub take_signal : ℕ × List Thread → ℕ × List Thread
  take_signal (j, threads) = elim (thread_at threads j) [
    | none ↦ (j, threads)
    | some t ↦
        if not (j == 0) && ltb 0 (fifobuffer_get_size t.signals)
        then (let (_, out, signals') = fifobuffer_dequeue t.signals 1 in
            let signal = get_or out 0 0 in
            let t' = record t {
              signals = signals';
              pending_signal_count = fifobuffer_get_size signals';
            } in
            let threads' = set_thread threads j t' in
            if kills signal
            then look_threads select_update uptime (process_destroy t.owner t.parent threads') 0
            else if stops signal
            then look_threads select_update uptime
                (set_thread threads' j (record t' { state = ts_suspend })) 0
            else (j, threads'))
        else (j, threads)
  ]

  -- The thread that is started, and the threads; `none` if the current one goes on. `current` is
  -- `none` after the current thread has been destroyed.
  unfoldable pub schedule : List Thread → (current : Option ℕ) → Option (ℕ × List Thread)
  schedule threads none = some (take_signal (look_threads select_update uptime threads 0))
  schedule threads (some c) =
      if length threads == 1 && c == 0
      then none
      else if uninterruptible (thread_at threads c)
      then none
      else some (take_signal (look_threads select_update uptime threads c))
