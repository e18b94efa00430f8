-- ===== src/Pipe/Broken.antt =====
-- When a pipe is broken, and what the two ends then see.
use asterisk.Base.{
  ℕ, ◌<◌, ◌≡◌, refl, ap, arith, Bool, true, false, ◌&&◌, ◌||◌, List, [], ◌∷◌, ltb, ◌==◌, ==_refl,
  if_both, if_each, length,
}
use asterisk.FifoBuffer.{fifobuffer_get_free, fifobuffer_get_size}
use asterisk.Pipe.{
  Pipe, File, o_rdonly, o_wronly, check_access, epipe, is_empty, leave, remove_first, pipe_open,
  pipe_close, fails, blocks, pipe_read_try, pipe_read_test_ready, pipe_write_try,
  pipe_write_test_ready,
}

-- A broken pipe has no readers.
abbrev pub Sound : Pipe → Type 0
Sound pipe = pipe.is_broken ≡ true → pipe.readers ≡ []

empty_nil : (xs : List ℕ) → is_empty xs ≡ true → xs ≡ []
empty_nil [] e = refl
empty_nil (x ∷ xs) e = absurd cc

pub open-Sound : (pipe : Pipe) (file : File) → Sound pipe → Sound (pipe_open pipe file).1
unfolding pipe_open
open-Sound pipe file s =
    if_both P (check_access file.flags o_rdonly || check_access file.flags o_wronly)
      (if_both P (check_access file.flags o_rdonly) (λ e. cc)
        (if_both P (check_access file.flags o_wronly) (λ e. cc) (λ e. cc)))
      s
  where
    P : Bool × Pipe × List ℕ → Type 0
    P out = Sound out.1

leave-Sound : (pipe : Pipe) (file : File) → Sound pipe → Sound (leave pipe file)
leave-Sound pipe file s =
    if_both Sound (check_access file.flags o_rdonly)
      (λ e. ap (λ l. remove_first l file.thread) (s e))
      (if_both Sound (check_access file.flags o_wronly) s s)

pub close-Sound : (pipe : Pipe) (file : File) → Sound pipe → Sound (pipe_close pipe file).0
unfolding pipe_close
close-Sound pipe file s =
    let left = leave pipe file in
    if_each (λ (out : Pipe × List ℕ). Sound out.0) (is_empty left.readers)
      (λ e broken. empty_nil left.readers e) (λ e. leave-Sound pipe file s)

close_last :
    (pipe : Pipe) (file : File)
    → check_access file.flags o_rdonly ≡ true
    → pipe.readers ≡ file.thread ∷ []
    → pipe_close pipe file ≡ (record pipe { readers = []; is_broken = true }, pipe.writers)
unfolding pipe_close
close_last pipe file reader one = rw reader (rw one (rw (==_refl file.thread) refl))

and_false : (b : Bool) → (b && false) ≡ false
and_false true = refl
and_false false = refl

-- When the last reader closes, `pipe_close` wakes the writers, and an attempt to write at least one
-- byte then fails with EPIPE: it neither waits nor stores a byte.
pub write_try-close :
    (pipe : Pipe) (file : File) (flags pending b : ℕ) (bytes : List ℕ)
    → check_access file.flags o_rdonly ≡ true
    → pipe.readers ≡ file.thread ∷ []
    → check_access flags o_wronly ≡ true
    → let (pipe', wakes) = pipe_close pipe file in
      (wakes ≡ pipe.writers) × (pipe_write_try pipe' flags pending (b ∷ bytes) true ≡ fails epipe)
unfolding pipe_write_try pipe_write_test_ready
write_try-close pipe file flags pending b bytes reader one writer =
    let more : (length (b ∷ bytes) == 0) ≡ false = ground arith in
    rw (close_last pipe file reader one)
      (refl, rw (more, writer) (rw (and_false (ltb 0 (fifobuffer_get_free pipe.buffer))) refl))

writers_gone :
    (pipe : Pipe) (r t : ℕ) (rest : List ℕ) (file : File)
    → pipe.readers ≡ r ∷ rest
    → pipe.writers ≡ t ∷ []
    → file.thread ≡ t
    → check_access file.flags o_rdonly ≡ false
    → check_access file.flags o_wronly ≡ true
    → pipe_close pipe file ≡ (record pipe { writers = [] }, [])
unfolding pipe_close
writers_gone pipe r t rest file some_reader one same not_reader writer =
    rw not_reader (rw writer (rw some_reader (rw one (rw same (rw (==_refl t) refl)))))

-- When the last writer of a pipe that is not broken, with readers and no bytes, closes, nobody is
-- woken, and a reader without a pending signal that asks for at least one byte still waits: the end
-- of the data is not told.
pub read_try-close :
    (pipe : Pipe) (r : ℕ) (rest : List ℕ) (file : File) (flags size : ℕ)
    → pipe.is_broken ≡ false
    → pipe.readers ≡ r ∷ rest
    → fifobuffer_get_size pipe.buffer ≡ 0
    → pipe.writers ≡ file.thread ∷ []
    → check_access file.flags o_wronly ≡ true
    → check_access flags o_rdonly ≡ true
    → 0 < size
    → let (pipe', wakes) = pipe_close pipe file in
      (wakes ≡ [])
      × (pipe'.writers ≡ [])
      × (pipe_read_try pipe' flags 0 size true ≡ blocks pipe.readers)
unfolding pipe_read_try pipe_read_test_ready
read_try-close pipe r rest file flags size whole some_reader no_bytes one writer reader more =
    let not_reader : check_access file.flags o_rdonly ≡ false = ground arith in
    let asks : (size == 0) ≡ false = ground arith in
    rw (writers_gone pipe r file.thread rest file some_reader one refl not_reader writer)
      (refl, refl, rw (asks, reader) (rw no_bytes (rw whole refl)))
