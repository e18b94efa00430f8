-- ===== src/Scheduler/Examples.antt =====
-- The theorems at four threads: the idle thread, two of one program that sleep and wait, and one
-- that runs.
use asterisk.Base.{
  ℕ, suc, ◌-◌, ◌<◌, ◌≡◌, refl, arith, true, false, List, [], ◌∷◌, Option, none, some,
}
use asterisk.FifoBuffer.{
  fifobuffer_create, fifobuffer_enqueue, fifobuffer_get_size, fifobuffer_get_free,
  fifobuffer_dequeue,
}
use asterisk.Scheduler.{Thread, ThreadState, ts_run, ts_sleep, ts_waitio, look_threads, first_ready}
use asterisk.Scheduler.{thread_update_state}
use asterisk.Scheduler.Sleep.{sleep_ms, sleep_ms-update}
use asterisk.Scheduler.Fair.{turn, look_threads-turn}
use asterisk.Scheduler.Signals.{sigkill, take_signal, process_signal, thread_signal}
use asterisk.Scheduler.Signals.Killed.{who, take_signal-kills}

abbrev thread : (id owner : ℕ) (parent : Option ℕ) → ThreadState → List ℕ → Thread
thread id owner parent state pending = record {
  thread_id = id;
  owner = owner;
  parent = parent;
  state = state;
  state_private_data = 500;
  signals = (fifobuffer_enqueue (fifobuffer_create 4) pending).1;
  pending_signal_count = 0;
  select_finished = false;
}

abbrev threads : List Thread
threads =
    thread 1 0 none ts_run []
    ∷ thread 2 1 (some 0) ts_sleep []
    ∷ thread 3 2 (some 1) ts_run (sigkill ∷ [])
    ∷ thread 4 1 (some 0) ts_waitio []
    ∷ thread 5 2 (some 1) ts_waitio []
    ∷ []

abbrev unchanged : Thread → Thread
unchanged t = t

-- Thread 2 is due at 500 milliseconds.
look_threads_early : (look_threads unchanged 400 threads 2).0 ≡ 2
unfolding look_threads first_ready
look_threads_early = refl

look_threads_due : (look_threads unchanged 500 threads 2).0 ≡ 1
unfolding look_threads first_ready
look_threads_due = refl

look_threads-turn_example :
    (k : ℕ) × (k < 5 - 1) × (turn unchanged (λ k. k) (λ k. threads) 3 (suc k) ≡ 2)
look_threads-turn_example =
    look_threads-turn unchanged (λ k. k) (λ k. threads) 3 5 2 (λ k. refl) (λ k. refl) (omega arith)
      (omega arith)

take_signal-kills_example :
    who (take_signal unchanged 0 (2, threads)).1 ≡ (1, 0) ∷ (2, 1) ∷ (4, 1) ∷ []
unfolding fifobuffer_enqueue fifobuffer_create fifobuffer_get_size fifobuffer_dequeue
take_signal-kills_example =
    take_signal-kills unchanged 0 (λ t. (refl, refl)) threads 2
      (thread 3 2 (some 1) ts_run (sigkill ∷ [])) refl (omega arith) (omega arith) refl

process_signal_first : (process_signal threads 2 sigkill).0 ≡ true
unfolding process_signal thread_signal fifobuffer_enqueue fifobuffer_create fifobuffer_get_free
    fifobuffer_get_size
process_signal_first = refl

-- A second before the time goes round, a sleep of ten seconds ends at once.
sleep_ms-update_example :
    thread_update_state unchanged 4294966300
      (sleep_ms (thread 2 1 (some 0) ts_run []) 4294966296 10000)
    ≡ record (thread 2 1 (some 0) ts_run []) { state = ts_run; state_private_data = 0 }
sleep_ms-update_example =
    sleep_ms-update unchanged (thread 2 1 (some 0) ts_run []) 4294966296 10000 4294966300
      (omega arith) (omega arith) (omega arith)
