-- ===== src/Tty/Programs.antt =====
-- kernel/ttydev.c: what the programs (the slave) write and read, and what the master reads.
use asterisk.Base.{
  ℕ, ◌+◌, ◌%◌, ◌^◌, Bool, not, ◌&&◌, List, [], ◌∷◌, ◌++◌, ℤ, pos, neg, ltb, leb, ◌==◌,
  if◌then◌else◌, take, length, min,
}
use asterisk.FifoBuffer.{
  FifoBuffer, fifobuffer_get_size, fifobuffer_get_free, fifobuffer_enqueue, fifobuffer_dequeue,
}
use asterisk.Tty.{
  TtyDev, Event, master_read_ready, wake_master_reader, has, icanon, ocrnl, onlret, onlcr, vmin, cc,
  to_uint32, is_negative,
}

-- `if (fifobuffer_enqueue(...) > 0) written += 1`
abbrev pub grown : ℤ → ℕ
grown r = if ltb 0 (to_uint32 r) && not (is_negative r) then 1 else 0

-- One round of the loop of `process_slave_write`: the buffer, and what `written` grows by.
unfoldable pub output_character : ℕ → FifoBuffer → ℕ → FifoBuffer × ℕ
output_character oflag f c =
    if c == b'\r' && has oflag ocrnl
    then (let (r, f') = fifobuffer_enqueue f (b'\n' ∷ []) in (f', grown r))
    else if c == b'\r' && has oflag onlret
    then (f, 1)
    else if c == b'\n' && has oflag onlcr
    then (if leb 2 (fifobuffer_get_free f)
        then (let (_, f') = fifobuffer_enqueue f (b'\r' ∷ []) in
            let (_, f'') = fifobuffer_enqueue f' (b'\n' ∷ []) in (f'', 1))
        else (f, 0))
    else (let (r, f') = fifobuffer_enqueue f (c ∷ []) in (f', grown r))

unfoldable pub output_loop : ℕ → List ℕ → FifoBuffer → ℕ → FifoBuffer × ℕ
output_loop oflag [] f written = (f, written)
output_loop oflag (c ∷ bytes) f written =
    let (f', n) = output_character oflag f c in output_loop oflag bytes f' ((written + n) % 2 ^ 32)

unfoldable pub process_slave_write : TtyDev → List ℕ → ℕ × TtyDev
unfolding output_loop
process_slave_write tty bytes =
    let (f, written) = output_loop tty.term.c_oflag bytes tty.buffer_master_read 0 in
    (written, record tty { buffer_master_read = f })

-- The end of `slave_write`, after `written` bytes.
unfoldable pub slave_write_end : ℕ × TtyDev → ℤ × TtyDev × List Event
slave_write_end (written, tty) =
    let usable = fifobuffer_get_size tty.buffer_master_read in
    let events =
      if ltb 0 usable && tty.has_ready_callback then master_read_ready usable ∷ [] else [] in
    if ltb 0 written && ltb written (2 ^ 31)
    then (pos written, tty, events ++ (wake_master_reader ∷ []))
    else (neg 1, tty, events)

unfoldable pub slave_write : TtyDev → List ℕ → ℤ × TtyDev × List Event
slave_write tty bytes =
    if length bytes == 0
    then (neg 1, tty, [])
    else (let free = fifobuffer_get_free tty.buffer_master_read in
        slave_write_end (
          if ltb 0 free
          then process_slave_write tty (take (min (length bytes) free) bytes)
          else (0, tty)))

-- What one try of `slave_read` or `master_read` finds: bytes, an answer at once, or a wait.
pub data ReadTry : Type 0 where
  got : ℤ → List ℕ → TtyDev → ReadTry
  polled : TtyDev → ReadTry
  blocks : TtyDev → ReadTry

-- `locked` says that `spinlock_try_lock` got the lock, here and below.
unfoldable pub slave_read_test_ready : TtyDev → (locked : Bool) → Bool
slave_read_test_ready tty locked =
    locked
    && leb (if has tty.term.c_lflag icanon then 1 else cc tty.term vmin)
        (fifobuffer_get_size tty.buffer_master_write)

unfoldable pub needed_size : TtyDev → ℕ → ℕ
needed_size tty size =
    if has tty.term.c_lflag icanon
    then 1
    else if ltb size (cc tty.term vmin)
    then size
    else cc tty.term vmin

-- One round of the `while (TRUE)` of `slave_read`, for a `size` that is not 0.
unfoldable pub slave_read_try : TtyDev → ℕ → ReadTry
slave_read_try tty size =
    let len = fifobuffer_get_size tty.buffer_master_write in
    let (r, out, f) =
      if leb (needed_size tty size) len
      then fifobuffer_dequeue tty.buffer_master_write (min len size)
      else (neg 1, [], tty.buffer_master_write) in
    let tty' = record tty { buffer_master_write = f } in
    if ltb 0 (to_uint32 r) && not (is_negative r)
    then got r out tty'
    else if needed_size tty size == 0
    then polled tty'
    else blocks tty'

unfoldable pub master_read_rest_ready : TtyDev → (locked : Bool) → Bool
master_read_rest_ready tty locked = locked && leb 1 (fifobuffer_get_size tty.buffer_master_read)

-- One round of the `while (TRUE)` of `master_read`, for a `size` that is not 0.
unfoldable pub master_read_try : TtyDev → ℕ → ReadTry
master_read_try tty size =
    let len = fifobuffer_get_size tty.buffer_master_read in
    let (r, out, f) =
      if leb 1 len
      then fifobuffer_dequeue tty.buffer_master_read (min len size)
      else (neg 1, [], tty.buffer_master_read) in
    let tty' = record tty { buffer_master_read = f } in
    if ltb 0 (to_uint32 r) && not (is_negative r) then got r out tty' else blocks tty'

unfoldable pub ttydev_master_read_nonblock : TtyDev → (locked : Bool) → ℕ → ℤ × List ℕ × TtyDev
ttydev_master_read_nonblock tty locked size =
    if ltb 0 size
    then (let len = fifobuffer_get_size tty.buffer_master_read in
        if locked && leb 1 len
        then (let (r, out, f) = fifobuffer_dequeue tty.buffer_master_read (min len size) in
            (r, out, record tty { buffer_master_read = f }))
        else (pos 0, [], tty))
    else (neg 1, [], tty)
