-- ===== src/Pipe.antt =====
-- kernel/pipe.c: a byte buffer between the threads that have it open for reading and for writing.
-- The lists of threads are lists of their numbers.
pub mod Flow
pub mod Broken
mod Examples
use asterisk.Base.{
  ℕ, zero, suc, ◌+◌, ◌-◌, ◌%◌, Bool, true, false, not, ◌&&◌, ◌||◌, List, [], ◌∷◌, ◌++◌, ℤ, neg, ltb,
  ◌==◌, if◌then◌else◌, length,
}
use asterisk.FifoBuffer.{
  FifoBuffer, fifobuffer_create, fifobuffer_get_size, fifobuffer_get_free, fifobuffer_enqueue,
  fifobuffer_dequeue,
}

-- `struct Pipe`, less its name and file node
pub record Pipe : Type 0 where
  pub buffer : FifoBuffer
  pub readers : List ℕ
  pub writers : List ℕ
  pub is_broken : Bool

-- What `open` and `close` read of a `File`.
pub record File : Type 0 where
  pub flags : ℕ
  pub thread : ℕ

abbrev pub o_rdonly : ℕ
o_rdonly = 0

abbrev pub o_wronly : ℕ
o_wronly = 1

abbrev pub check_access : ℕ → ℕ → Bool
check_access flags test = flags % 4 == test

abbrev pub epipe : ℤ
epipe = neg 32

abbrev pub eintr : ℤ
eintr = neg 4

-- `list_remove_first_occurrence` of a thread
abbrev pub remove_first : List ℕ → ℕ → List ℕ
remove_first [] t = []
remove_first (x ∷ xs) t = let rest = remove_first xs t in if x == t then xs else x ∷ rest

abbrev pub is_empty : List ℕ → Bool
is_empty [] = true
is_empty (x ∷ xs) = false

-- The pipe that `pipe_create` makes.
unfoldable pub pipe_create : ℕ → Pipe
pipe_create size = record {
  buffer = fifobuffer_create size;
  readers = [];
  writers = [];
  is_broken = false;
}

-- Whether it opens, the pipe, and the threads that `wakeup_accessing_threads` is called for.
unfoldable pub pipe_open : Pipe → File → Bool × Pipe × List ℕ
pipe_open pipe file =
    if check_access file.flags o_rdonly || check_access file.flags o_wronly
    then (if check_access file.flags o_rdonly
        then (
          true,
          record pipe { is_broken = false; readers = pipe.readers ++ (file.thread ∷ []) },
          pipe.writers,
        )
        else if check_access file.flags o_wronly
        then (
          true,
          record pipe { is_broken = false; writers = pipe.writers ++ (file.thread ∷ []) },
          [],
        )
        else (true, record pipe { is_broken = false }, []))
    else (false, pipe, [])

-- The first part of `pipe_close`.
abbrev pub leave : Pipe → File → Pipe
leave pipe file =
    if check_access file.flags o_rdonly
    then record pipe { readers = remove_first pipe.readers file.thread }
    else if check_access file.flags o_wronly
    then record pipe { writers = remove_first pipe.writers file.thread }
    else pipe

unfoldable pub pipe_close : Pipe → File → Pipe × List ℕ
pipe_close pipe file =
    let left = leave pipe file in
    if is_empty left.readers then (record left { is_broken = true }, left.writers) else (left, [])

-- What one round of a read or a write comes to: the return value, the bytes read, the pipe and the
-- threads to wake; or an error; or a wait of the threads in the list.
pub data Attempt : Type 0 where
  done : ℤ → List ℕ → Pipe → List ℕ → Attempt
  fails : ℤ → Attempt
  blocks : List ℕ → Attempt

unfoldable pub pipe_read_test_ready : Pipe → Bool
pipe_read_test_ready pipe = ltb 0 (fifobuffer_get_size pipe.buffer)

-- `pending` is `g_current_thread->pending_signal_count`, and `has_buffer` says that `buffer` is not
-- NULL, here and below.
unfoldable pub pipe_read_try : Pipe → (flags pending size : ℕ) → (has_buffer : Bool) → Attempt
pipe_read_try pipe flags pending size has_buffer =
    if size == 0 || not has_buffer || not (check_access flags o_rdonly)
    then fails (neg 1)
    else if not (pipe_read_test_ready pipe)
    then (if pipe.is_broken
        then fails epipe
        else if ltb 0 pending
        then fails eintr
        else blocks pipe.readers)
    else if ltb 0 pending
    then fails eintr
    else (let (r, out, buffer') = fifobuffer_dequeue pipe.buffer size in
        done r out (record pipe { buffer = buffer' }) pipe.writers)

unfoldable pub pipe_write_test_ready : Pipe → Bool
pipe_write_test_ready pipe = ltb 0 (fifobuffer_get_free pipe.buffer) && ltb 0 (length pipe.readers)

unfoldable pub pipe_write_try : Pipe → (flags pending : ℕ) → List ℕ → (has_buffer : Bool) → Attempt
pipe_write_try pipe flags pending bytes has_buffer =
    if length bytes == 0 || not has_buffer || not (check_access flags o_wronly)
    then fails (neg 1)
    else if not (pipe_write_test_ready pipe)
    then (if pipe.is_broken
        then fails epipe
        else if ltb 0 pending
        then fails eintr
        else blocks pipe.writers)
    else if ltb 0 pending
    then fails eintr
    else (let (r, buffer') = fifobuffer_enqueue pipe.buffer bytes in
        done r [] (record pipe { buffer = buffer' }) pipe.readers)
