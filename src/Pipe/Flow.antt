-- ===== src/Pipe/Flow.antt =====
-- What is read from a pipe is what was written to it.
use asterisk.Base.{
  ℕ, ◌<◌, ◌≡◌, ◌≢◌, ◌∙◌, sym, refl, ap, ap₂, arith, Bool, true, false, not, ◌||◌, List, [], ◌∷◌,
  ◌++◌, append_assoc, append-nil, ℤ, pos, negsuc, ltb, ◌==◌, if_both, if_each, length, take,
  take-all, take-drop, take-min,
}
use asterisk.FifoBuffer.Valid.{IsValid}
use asterisk.FifoBuffer.Contents.{contents}
use asterisk.FifoBuffer.Enqueue.{fifobuffer_enqueue_lem}
use asterisk.FifoBuffer.Dequeue.{fifobuffer_dequeue_lem}
use asterisk.Pipe.{
  Pipe, File, o_rdonly, o_wronly, check_access, pipe_open, pipe_close, leave, is_empty, Attempt,
  done, fails, blocks, pipe_read_try, pipe_read_test_ready, pipe_write_try, pipe_write_test_ready,
}
use asterisk.Pipe.Broken.{Sound, open-Sound, close-Sound}

-- The number of bytes that a return value tells of.
abbrev pub told : ℤ → ℕ
told (pos n) = n
told (negsuc n) = 0

-- An attempt to write `bytes`, or to read where there are none, moves bytes in order, and otherwise
-- leaves the pipe.
abbrev pub Flows : Pipe → List ℕ → Attempt → Type 0
Flows pipe bytes (done r out pipe' wakes) =
    (out ++ contents pipe'.buffer ≡ contents pipe.buffer ++ take (told r) bytes)
    × IsValid pipe'.buffer
    × (pipe'.readers ≡ pipe.readers)
    × (pipe'.is_broken ≡ pipe.is_broken)
Flows pipe bytes (fails e) = Unit
Flows pipe bytes (blocks threads) = Unit

take_none : (n : ℕ) → take {A = ℕ} n [] ≡ []
take_none n = take-all n [] (omega arith)

read-Flows :
    (pipe : Pipe) (flags pending size : ℕ) (has_buffer : Bool)
    → IsValid pipe.buffer
    → Flows pipe [] (pipe_read_try pipe flags pending size has_buffer)
unfolding pipe_read_try
read-Flows pipe flags pending size has_buffer v =
    if_each P (size == 0 || not has_buffer || not (check_access flags o_rdonly)) (λ e. tt)
      (λ e.
        if_both P (not (pipe_read_test_ready pipe))
          (if_both P pipe.is_broken tt (if_both P (ltb 0 pending) tt tt))
          (if_both P (ltb 0 pending) tt (
            let (r, out, rest, valid, cap) = fifobuffer_dequeue_lem size v (some_size e) in
            (
              ap₂ (λ xs ys. xs ++ ys) out rest
                  ∙ take-drop size (contents pipe.buffer)
                  ∙ sym (
                      ap (λ l. contents pipe.buffer ++ l) (take_none _)
                      ∙ append-nil (contents pipe.buffer)),
              valid,
              refl,
              refl,
            ))))
  where
    P : Attempt → Type 0
    P a = Flows pipe [] a

    some_size :
        (size == 0 || not has_buffer || not (check_access flags o_rdonly)) ≡ false → 0 < size
    some_size e = ground arith

write-Flows :
    (pipe : Pipe) (flags pending : ℕ) (bytes : List ℕ) (has_buffer : Bool)
    → IsValid pipe.buffer
    → Flows pipe bytes (pipe_write_try pipe flags pending bytes has_buffer)
unfolding pipe_write_try
write-Flows pipe flags pending bytes has_buffer v =
    if_each P (length bytes == 0 || not has_buffer || not (check_access flags o_wronly)) (λ e. tt)
      (λ e.
        if_both P (not (pipe_write_test_ready pipe))
          (if_both P pipe.is_broken tt (if_both P (ltb 0 pending) tt tt))
          (if_both P (ltb 0 pending) tt (
            let (r, held, valid, cap) = fifobuffer_enqueue_lem bytes v (some_bytes bytes e) in
            (
              held
                  ∙ ap (λ l. contents pipe.buffer ++ l)
                      (sym (ap (λ k. take (told k) bytes) r ∙ take-min _ bytes)),
              valid,
              refl,
              refl,
            ))))
  where
    P : Attempt → Type 0
    P a = Flows pipe bytes a

    some_bytes :
        (bytes : List ℕ)
        → (length bytes == 0 || not has_buffer || not (check_access flags o_wronly)) ≡ false
        → bytes ≢ []
    some_bytes [] e = absurd cc
    some_bytes (x ∷ xs) e = λ n. cc

-- The calls on one pipe, with buffers that are not NULL.
pub data Call : Type 0 where
  opens : File → Call
  closes : File → Call
  reads : (flags pending size : ℕ) → Call
  writes : (flags pending : ℕ) → List ℕ → Call

-- What an attempt leaves, hands over and takes.
abbrev settle : Pipe → List ℕ → Attempt → Pipe × List ℕ × List ℕ
settle pipe bytes (done r out pipe' wakes) = (pipe', out, take (told r) bytes)
settle pipe bytes (fails e) = (pipe, [], [])
settle pipe bytes (blocks threads) = (pipe, [], [])

unfoldable pub call : Pipe → Call → Pipe × List ℕ × List ℕ
call pipe (opens file) = ((pipe_open pipe file).1, [], [])
call pipe (closes file) = ((pipe_close pipe file).0, [], [])
call pipe (reads flags pending size) = settle pipe [] (pipe_read_try pipe flags pending size true)
call pipe (writes flags pending bytes) =
    settle pipe bytes (pipe_write_try pipe flags pending bytes true)

-- The pipe after the calls, all bytes read and all bytes that writes said they took.
unfoldable pub run : Pipe → List Call → Pipe × List ℕ × List ℕ
run pipe [] = (pipe, [], [])
run pipe (c ∷ calls) =
    let (pipe', out, taken) = call pipe c in
    let (last, outs, takens) = run pipe' calls in (last, out ++ outs, taken ++ takens)

-- What came out and what is left is what was there and what went in, and the pipe is in order.
pub record Flowed (pipe : Pipe) (out : Pipe × List ℕ × List ℕ) : Type 0 where
  pub bytes : out.1 ++ contents out.0.buffer ≡ contents pipe.buffer ++ out.2
  pub valid : IsValid out.0.buffer
  pub sound : Sound out.0

settle-Flowed :
    (pipe : Pipe) (bytes : List ℕ) (a : Attempt)
    → IsValid pipe.buffer
    → Sound pipe
    → Flows pipe bytes a
    → Flowed pipe (settle pipe bytes a)
settle-Flowed pipe bytes (done r out pipe' wakes) v s (moved, valid, readers, broken) = record {
  bytes = moved;
  valid = valid;
  sound = λ e. readers ∙ s (sym broken ∙ e);
}
settle-Flowed pipe bytes (fails e) v s f = record {
  bytes = sym (append-nil (contents pipe.buffer));
  valid = v;
  sound = s;
}
settle-Flowed pipe bytes (blocks threads) v s f = record {
  bytes = sym (append-nil (contents pipe.buffer));
  valid = v;
  sound = s;
}

open-buffer : (pipe : Pipe) (file : File) → (pipe_open pipe file).1.buffer ≡ pipe.buffer
unfolding pipe_open
open-buffer pipe file =
    if_both P (check_access file.flags o_rdonly || check_access file.flags o_wronly)
      (if_both P (check_access file.flags o_rdonly) refl
        (if_both P (check_access file.flags o_wronly) refl refl))
      refl
  where
    P : Bool × Pipe × List ℕ → Type 0
    P out = out.1.buffer ≡ pipe.buffer

close-buffer : (pipe : Pipe) (file : File) → (pipe_close pipe file).0.buffer ≡ pipe.buffer
unfolding pipe_close
close-buffer pipe file =
    if_both (λ (out : Pipe × List ℕ). out.0.buffer ≡ pipe.buffer)
      (is_empty (leave pipe file).readers) left left
  where
    left : (leave pipe file).buffer ≡ pipe.buffer
    left =
        if_both (λ (p : Pipe). p.buffer ≡ pipe.buffer) (check_access file.flags o_rdonly) refl
          (if_both (λ (p : Pipe). p.buffer ≡ pipe.buffer) (check_access file.flags o_wronly) refl
            refl)

same-Flowed :
    (pipe pipe' : Pipe)
    → IsValid pipe.buffer
    → pipe'.buffer ≡ pipe.buffer
    → Sound pipe'
    → Flowed pipe (pipe', [], [])
same-Flowed pipe pipe' v e s = record {
  bytes = ap contents e ∙ sym (append-nil (contents pipe.buffer));
  valid = rw e v;
  sound = s;
}

call-Flowed :
    (pipe : Pipe) (c : Call) → IsValid pipe.buffer → Sound pipe → Flowed pipe (call pipe c)
unfolding call
call-Flowed pipe (opens file) v s =
    same-Flowed pipe _ v (open-buffer pipe file) (open-Sound pipe file s)
call-Flowed pipe (closes file) v s =
    same-Flowed pipe _ v (close-buffer pipe file) (close-Sound pipe file s)
call-Flowed pipe (reads flags pending size) v s =
    settle-Flowed pipe [] _ v s (read-Flows pipe flags pending size true v)
call-Flowed pipe (writes flags pending bytes) v s =
    settle-Flowed pipe bytes _ v s (write-Flows pipe flags pending bytes true v)

-- However opens, closes, attempts to read and attempts to write follow each other on a pipe with a
-- valid buffer that has no readers if it is broken: the bytes that were read, in order, and those
-- that are left are the bytes that were there and those that the writes said they took, in order;
-- the buffer stays valid, and a broken pipe has no readers.
pub run-Flowed :
    (calls : List Call) (pipe : Pipe)
    → IsValid pipe.buffer
    → Sound pipe
    → Flowed pipe (run pipe calls)
unfolding run
run-Flowed [] pipe v s = record {
  bytes = sym (append-nil (contents pipe.buffer));
  valid = v;
  sound = s;
}
run-Flowed (c ∷ calls) pipe v s =
    let f = call-Flowed pipe c v s in
    let (pipe', out, taken) = call pipe c in
    let g = run-Flowed calls pipe' f.valid f.sound in
    let (last, outs, takens) = run pipe' calls in
    record {
      bytes =
          append_assoc out outs (contents last.buffer)
          ∙ ap (λ l. out ++ l) g.bytes
          ∙ sym (append_assoc out (contents pipe'.buffer) takens)
          ∙ ap (λ l. l ++ takens) f.bytes
          ∙ append_assoc (contents pipe.buffer) taken takens;
      valid = g.valid;
      sound = g.sound;
    }
