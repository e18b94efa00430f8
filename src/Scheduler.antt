-- ===== src/Scheduler.antt =====
-- kernel/process.c: the threads of the system, their states and signals, and the choice of the next
-- thread. The linked list of threads is a list, a pointer to a thread is its place, and the first
-- thread is the idle thread.
pub mod Search
pub mod Fair
pub mod Signals
pub mod Sleep
mod Examples
use asterisk.Base.{
  ℕ, zero, suc, ◌+◌, ◌-◌, Bool, true, false, not, ◌&&◌, ◌||◌, List, [], ◌∷◌, ◌++◌, Option, none,
  some, ltb, leb, ◌==◌, if◌then◌else◌, take, drop, length,
}
use asterisk.FifoBuffer.{
  FifoBuffer, fifobuffer_get_size, fifobuffer_get_free, fifobuffer_enqueue, fifobuffer_dequeue,
}

-- `thread_state_t`
pub data ThreadState : Type 0 where
  ts_run ts_waitio ts_waitchild ts_sleep ts_select ts_suspend ts_critical ts_uninterruptible
        ts_dead :
      ThreadState

-- `struct Thread`, less its registers, stack, counters and message queue. `owner` and `parent` are
-- the numbers of the process and of its parent, if it has one, and `select_finished` says that the
-- state of its `select` is SS_FINISHED.
pub record Thread : Type 0 where
  pub thread_id : ℕ
  pub owner : ℕ
  pub parent : Option ℕ
  pub state : ThreadState
  pub state_private_data : ℕ
  pub signals : FifoBuffer
  pub pending_signal_count : ℕ
  pub select_finished : Bool

abbrev pub is_run : ThreadState → Bool
is_run ts_run = true
is_run ts_waitio = false
is_run ts_waitchild = false
is_run ts_sleep = false
is_run ts_select = false
is_run ts_suspend = false
is_run ts_critical = false
is_run ts_uninterruptible = false
is_run ts_dead = false

abbrev pub state_number : ThreadState → ℕ
state_number ts_run = 0
state_number ts_waitio = 1
state_number ts_waitchild = 2
state_number ts_sleep = 3
state_number ts_select = 4
state_number ts_suspend = 5
state_number ts_critical = 6
state_number ts_uninterruptible = 7
state_number ts_dead = 8

abbrev pub in_state : Thread → ThreadState → Bool
in_state t s = state_number t.state == state_number s

abbrev pub thread_change_state : Thread → ThreadState → ℕ → Thread
thread_change_state t state private_data = record t {
  state = state;
  state_private_data = private_data;
}

abbrev pub thread_resume : Thread → Thread
thread_resume t = record t { state = ts_run; state_private_data = 0 }

-- What `select_update` of kernel/syscall_select.c does with a thread, and the time, are parameters.
module _ (select_update : Thread → Thread) (uptime : ℕ) where
  abbrev pub thread_update_state : Thread → Thread
  thread_update_state t =
      if in_state t ts_sleep
      then (if leb t.state_private_data uptime then thread_resume t else t)
      else if in_state t ts_select
      then (let t' = select_update t in if t'.select_finished then thread_resume t' else t')
      else t

  -- The body of both loops of `look_threads`: the place of the first thread that can run, and the
  -- threads after their update up to there.
  unfoldable pub first_ready : List Thread → Option ℕ × List Thread
  first_ready [] = (none, [])
  first_ready (t ∷ ts) =
      let t' = thread_update_state t in
      elim (is_run t'.state) [
        | true ↦ (some 0, t' ∷ ts)
        | false ↦
            let (found, ts') = first_ready ts in
            (elim found [ none ↦ none | some k ↦ some (suc k) ], t' ∷ ts')
      ]

  -- The second half of `look_threads`, from the thread behind the first up to `current`.
  abbrev pub look_again : List Thread → ℕ → ℕ × List Thread
  look_again threads current =
      let (found, part) = first_ready (take current (drop 1 threads)) in
      let threads' = take 1 threads ++ (part ++ drop (suc current) threads) in
      elim found [ some k ↦ (suc k, threads') | none ↦ (0, threads') ]

  unfoldable pub look_threads : List Thread → ℕ → ℕ × List Thread
  look_threads threads current =
      let (found, after) = first_ready (drop (suc current) threads) in
      let threads' = take (suc current) threads ++ after in
      elim found [
        | some k ↦ (suc current + k, threads')
        | none ↦ elim (current == 0) [ true ↦ (0, threads') | false ↦ look_again threads' current ]
      ]
