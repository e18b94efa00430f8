-- ===== src/Tty/Read.antt =====
-- What the reads of the two ends hand over.
use asterisk.Base.{
  sym, ℕ, ℤ, if◌then◌else◌, ◌^◌, ◌≤◌, leb→le, leb→gt, ◌==◌, inl, inr, Bool-cases, ltb→lt, ltb→le,
  ap₂, not, ◌&&◌, take-drop, length-take, ◌<◌, ◌≡◌, ◌∙◌, refl, ap, arith, true, false, List, [],
  ◌++◌, pos, neg, min, length, ltb, leb,
}
use asterisk.FifoBuffer.{FifoBuffer, fifobuffer_get_size, fifobuffer_dequeue}
use asterisk.FifoBuffer
use asterisk.FifoBuffer.Contents.{contents, length-contents}
use asterisk.FifoBuffer.Dequeue.{fifobuffer_dequeue_lem}
use asterisk.Tty.{TtyDev, has, icanon, cc, vmin, to_uint32, is_negative}
use asterisk.Tty.Programs.{
  ReadTry, got, polled, blocks, needed_size, slave_read_try, master_read_try,
  ttydev_master_read_nonblock,
}

-- The bytes `out` have gone from `f` to a reader with room for `size`; `f'` is what is left.
pub record Taken (f : FifoBuffer) (size : ℕ) (r : ℤ) (out : List ℕ) (f' : FifoBuffer) : Type 0 where
  pub returns : r ≡ pos (length out)
  pub count : length out ≡ min f.used_bytes size
  pub some_bytes : 0 < length out
  pub split : out ++ contents f' ≡ contents f
  pub valid : FifoBuffer.Valid.IsValid f'

dequeue-Taken :
    (f : FifoBuffer) (size : ℕ)
    → FifoBuffer.Valid.IsValid f
    → 0 < size
    → 0 < f.used_bytes
    → let (r, out, f') = fifobuffer_dequeue f (min f.used_bytes size) in Taken f size r out f'
dequeue-Taken f size v p h =
    let (returns, bytes, rest, valid, _) =
      fifobuffer_dequeue_lem (min f.used_bytes size) v (omega arith) in
    let n = ap (length {A = ℕ}) bytes ∙ length-take (min f.used_bytes size) (contents f) in
    let size_contents = length-contents f in
    record {
      returns = returns;
      count = omega arith;
      some_bytes = omega arith;
      split = ap₂ (λ xs ys. xs ++ ys) bytes rest ∙ take-drop (min f.used_bytes size) (contents f);
      valid = valid;
    }

dequeue-zero : (f : FifoBuffer) → fifobuffer_dequeue f 0 ≡ (neg 1, [], f)
unfolding fifobuffer_dequeue
dequeue-zero f = refl

positive :
    {r : ℤ} {n : ℕ}
    → r ≡ pos n
    → 0 < n
    → n < 2 ^ 31
    → (ltb 0 (to_uint32 r) && not (is_negative r)) ≡ true
positive e p h = rw e (ground arith)

-- The bytes that a read waits for: one in canonical mode, otherwise the smaller of the terminal's
-- minimum and the room of the reader.
abbrev pub slave_needs : TtyDev → ℕ → ℕ
slave_needs tty size = if has tty.term.c_lflag icanon then 1 else min (cc tty.term vmin) size

needed_size-slave_needs : (tty : TtyDev) (size : ℕ) → needed_size tty size ≡ slave_needs tty size
unfolding needed_size
needed_size-slave_needs tty size = elim (Bool-cases (has tty.term.c_lflag icanon)) [
  | inl canonical ↦ rw (canonical, needed_size) refl
  | inr raw ↦ rw (raw, needed_size) (ground arith)
]

-- What a try of `slave_read` may answer.
abbrev pub SlaveRead : TtyDev → ℕ → ReadTry → Type 0
SlaveRead tty size (got r out tty') =
    (slave_needs tty size ≤ tty.buffer_master_write.used_bytes)
    × Taken tty.buffer_master_write size r out tty'.buffer_master_write
SlaveRead tty size (polled tty') =
    (slave_needs tty size ≡ 0) × (tty.buffer_master_write.used_bytes ≡ 0) × (tty' ≡ tty)
SlaveRead tty size (blocks tty') =
    (tty.buffer_master_write.used_bytes < slave_needs tty size) × (tty' ≡ tty)

-- A try of `slave_read` with room for at least one byte, on a valid input buffer: with as many
-- bytes as the mode needs (one in canonical mode, else the smaller of VMIN and the room) it hands
-- over the oldest bytes, as many as there are and fit, and keeps the rest in order; with none,
-- where the mode needs none, it answers at once; with too few it leaves the device as it is and
-- waits.
pub slave_read_try-SlaveRead :
    (tty : TtyDev) (size : ℕ)
    → FifoBuffer.Valid.IsValid tty.buffer_master_write
    → 0 < size
    → SlaveRead tty size (slave_read_try tty size)
unfolding slave_read_try fifobuffer_get_size
slave_read_try-SlaveRead tty size v p = elim (Bool-cases (leb (needed_size tty size) used)) [
  | inl enough ↦ elim (Bool-cases (ltb 0 used)) [
    | inl more ↦
        let t = dequeue-Taken tty.buffer_master_write size v p (ltb→lt _ _ more) in
        let h : length (fifobuffer_dequeue tty.buffer_master_write (min used size)).1 < 2 ^ 31 =
          omega (arith, t.count, v.used_in, v.small) in
        rw enough
          (rw (positive t.returns t.some_bytes h) (omega (arith, same, leb→le _ _ enough), t))
    | inr none_left ↦
        let nothing : used ≡ 0 = omega (arith, ltb→le _ _ none_left) in
        let needed : needed_size tty size ≡ 0 = omega (arith, nothing, leb→le _ _ enough) in
        let try_nothing : min used size ≡ 0 = omega (arith, nothing) in
        let none_needed : (needed_size tty size == 0) ≡ true = ground arith in
        rw enough (
          rw try_nothing (
            rw (dequeue-zero tty.buffer_master_write)
              (rw none_needed (sym same ∙ needed, nothing, refl))))
  ]
  | inr few ↦
      let h = leb→gt _ _ few in
      let some_needed : (needed_size tty size == 0) ≡ false = ground arith in
      rw few (rw some_needed (omega (arith, same, h), refl))
]
  where
    used : ℕ
    used = tty.buffer_master_write.used_bytes

    same : needed_size tty size ≡ slave_needs tty size
    same = needed_size-slave_needs tty size

-- What a try of `master_read` may answer.
abbrev pub MasterRead : TtyDev → ℕ → ReadTry → Type 0
MasterRead tty size (got r out tty') =
    Taken tty.buffer_master_read size r out tty'.buffer_master_read
MasterRead tty size (polled tty') = ⊥
MasterRead tty size (blocks tty') = (tty.buffer_master_read.used_bytes ≡ 0) × (tty' ≡ tty)

-- What a read that does not wait makes of a try.
abbrev pub nonblock : ReadTry → ℤ × List ℕ × TtyDev
nonblock (got r out tty) = (r, out, tty)
nonblock (polled tty) = (pos 0, [], tty)
nonblock (blocks tty) = (pos 0, [], tty)

-- A try of `master_read` with room for at least one byte, on a valid output buffer that holds any,
-- hands over the oldest bytes, as many as there are and fit, and keeps the rest in order; on an
-- empty one it leaves the device as it is and waits. `ttydev_master_read_nonblock` with the lock
-- hands over the same bytes, or none.
pub master_read_try-MasterRead :
    (tty : TtyDev) (size : ℕ)
    → FifoBuffer.Valid.IsValid tty.buffer_master_read
    → 0 < size
    → MasterRead tty size (master_read_try tty size)
      × (ttydev_master_read_nonblock tty true size ≡ nonblock (master_read_try tty size))
unfolding master_read_try ttydev_master_read_nonblock fifobuffer_get_size
master_read_try-MasterRead tty size v p =
    let room : ltb 0 size ≡ true = ground arith in
    elim (Bool-cases (leb 1 tty.buffer_master_read.used_bytes)) [
      | inl enough ↦
          let t = dequeue-Taken tty.buffer_master_read size v p (leb→le _ _ enough) in
          let h : length
                (fifobuffer_dequeue tty.buffer_master_read
                  (min tty.buffer_master_read.used_bytes size)).1
              < 2 ^ 31 =
            omega (arith, t.count, v.used_in, v.small) in
          rw enough (rw (positive t.returns t.some_bytes h) (t, rw room refl))
      | inr few ↦ rw few (rw room ((omega (arith, leb→gt _ _ few), refl), refl))
    ]
