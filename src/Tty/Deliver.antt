-- ===== src/Tty/Deliver.antt =====
-- Canonical mode: the newline key sends the typed line to the programs.
use asterisk.Base.{
  ℕ, ◌+◌, ◌-◌, ◌^◌, ◌≤◌, ◌<◌, ◌≡◌, ◌∙◌, refl, ap, arith, Bool, true, false, List, [], ◌∷◌, ◌++◌, ℤ,
  pos, length, ltb, leb, ◌==◌, if◌then◌else◌, take, take-all, min, Option, none, some, to_int32,
  to_int32-small, append_assoc, length-append,
}
use asterisk.FifoBuffer.{FifoBuffer, fifobuffer_enqueue, fifobuffer_get_free}
use asterisk.FifoBuffer
use asterisk.FifoBuffer.Valid.{fifobuffer_get_free-sub}
use asterisk.FifoBuffer.Contents.{contents, length-contents}
use asterisk.FifoBuffer.Fits.{Enqueued, enqueue-Enqueued}
use asterisk.Tty.{
  TtyDev, Event, has, icanon, echo, line_buffer_size, echo_bytes, is_erase_character, is_escaped,
  signal_character, canonical_character, line_end, write_character, write_characters, flush_echo,
  master_write, wake_slave_readers,
}
use asterisk.Tty.Bounds.{
  IsValid, cleared, cleared-IsValid, flush_echo-IsValid, write_characters-IsValid,
}
use asterisk.Tty.Line.{AllPlain, Newline, echo-shape, write_characters-Typed}

-- What the end of the line `cs` has done.
record Ended (tty : TtyDev) (cs : List ℕ) (out : TtyDev × ℕ) : Type 0 where
  count : out.1 ≡ length cs + 1
  sent :
      contents out.0.buffer_master_write ≡ contents tty.buffer_master_write ++ (cs ++ (b'\n' ∷ []))
  fresh : out.0.line_buffer_index ≡ 0

line_end-Ended :
    (tty : TtyDev) (c : ℕ) (cs : List ℕ)
    → FifoBuffer.Valid.IsValid tty.buffer_master_write
    → take tty.line_buffer_index tty.line_buffer ≡ c ∷ cs
    → length (c ∷ cs) + 1 ≤ fifobuffer_get_free tty.buffer_master_write
    → Ended tty (c ∷ cs) (line_end tty)
unfolding line_end
line_end-Ended tty c cs v line h = rw line (record {
  count = rw a.count (rw b.count (omega (arith, fits)));
  sent =
      where_sent (has tty.term.c_lflag echo)
      ∙ b.held
      ∙ ap (λ l. l ++ (b'\n' ∷ [])) a.held
      ∙ append_assoc (contents f) (c ∷ cs) (b'\n' ∷ []);
  fresh = where_fresh (has tty.term.c_lflag echo);
})
  where
    f : FifoBuffer
    f = tty.buffer_master_write

    small : f.capacity < 2 ^ 31
    small = v.small

    a : Enqueued f (c ∷ cs) (fifobuffer_enqueue f (c ∷ cs))
    a = enqueue-Enqueued c cs v (omega arith)

    g : FifoBuffer
    g = (fifobuffer_enqueue f (c ∷ cs)).1

    fits : length (c ∷ cs) + 1 < 2 ^ 31
    fits = omega (arith, fifobuffer_get_free-sub v)

    room : 1 ≤ fifobuffer_get_free g
    room = omega (
      arith,
      fifobuffer_get_free-sub v,
      fifobuffer_get_free-sub a.valid,
      length-contents f,
      length-contents g,
      a.capacity,
      ap (length {A = ℕ}) a.held,
      length-append (contents f) (c ∷ cs),
    )

    b : Enqueued g (b'\n' ∷ []) (fifobuffer_enqueue g (b'\n' ∷ []))
    b = enqueue-Enqueued b'\n' [] a.valid room

    after : TtyDev
    after = record tty {
      line_buffer_index = 0;
      buffer_master_write = (fifobuffer_enqueue g (b'\n' ∷ [])).1;
    }

    where_sent :
        (d : Bool)
        → contents (if d then echo_bytes after (b'\r' ∷ []) else after).buffer_master_write
          ≡ contents (fifobuffer_enqueue g (b'\n' ∷ [])).1
    where_sent true = refl
    where_sent false = refl

    where_fresh :
        (d : Bool) → (if d then echo_bytes after (b'\r' ∷ []) else after).line_buffer_index ≡ 0
    where_fresh true = refl
    where_fresh false = refl

canonical-newline :
    (tty : TtyDev) (d : Bool) (w : ℕ)
    → is_erase_character tty.term b'\n' ≡ false
    → 0 < tty.line_buffer_index
    → tty.line_buffer_index < line_buffer_size - 1
    → canonical_character tty d b'\n' w ≡ line_end tty
unfolding canonical_character
canonical-newline tty d w p q h =
    let e₁ : leb (line_buffer_size - 1) tty.line_buffer_index ≡ false = ground arith in
    let e₂ : ltb 0 tty.line_buffer_index ≡ true = ground arith in rw e₁ (rw p (rw e₂ refl))

write_character-Newline :
    (tty : TtyDev) (c w : ℕ)
    → has tty.term.c_lflag icanon ≡ true
    → Newline tty.term c
    → 0 < tty.line_buffer_index
    → tty.line_buffer_index < line_buffer_size - 1
    → (e : FifoBuffer) × (write_character tty c w ≡ (
      (line_end (record tty { buffer_echo = e })).0,
      (line_end (record tty { buffer_echo = e })).1,
      signal_character tty b'\n',
    ))
unfolding write_character
write_character-Newline tty c w canon nl p h =
    let (e, shape) = echo-shape tty b'\n' in
    let step =
      canonical-newline (record tty { buffer_echo = e }) (is_escaped tty.term b'\n') w nl.1 p h in
    (e, rw nl.0 (rw canon (rw shape (rw step refl))))

write_characters-append :
    (xs ys : List ℕ) (tty : TtyDev) (w : ℕ) (events : List Event)
    → write_characters (xs ++ ys) tty w events ≡ (
        let (tty', w', events') = write_characters xs tty w events in
        write_characters ys tty' w' events')
unfolding write_characters
write_characters-append [] ys tty w events = refl
write_characters-append (x ∷ xs) ys tty w events = write_characters-append xs ys _ _ _

-- `master_write` of bytes that fit, from what its loop and its end do.
pub master_write-runs :
    (tty : TtyDev) (c : ℕ) (cs : List ℕ) {tty' : TtyDev} {more : List Event} (r : ℤ)
    → take (min (length (c ∷ cs)) (fifobuffer_get_free tty.buffer_master_write)) (c ∷ cs) ≡ c ∷ cs
    → to_int32 (write_characters (c ∷ cs) (cleared tty) 0 []).1 ≡ r
    → flush_echo (write_characters (c ∷ cs) (cleared tty) 0 []).0 ≡ some (tty', more)
    → (let loop = write_characters (c ∷ cs) (cleared tty) 0 [] in
        master_write tty (c ∷ cs)
        ≡ some (r, tty', loop.2 ++ (if ltb 0 loop.1 then wake_slave_readers ∷ [] else []) ++ more))
unfolding master_write
master_write-runs tty c cs {tty' = tty'} {more = more} r all count eq =
    let more_bytes : (length (c ∷ cs) == 0) ≡ false = ground arith in
    rw more_bytes (ap run_used all ∙ rw (eq, count) refl)
  where
    run_used : List ℕ → Option (ℤ × TtyDev × List Event)
    run_used used =
        let (after, written, events) = write_characters used (cleared tty) 0 [] in
        elim (flush_echo after) [
          | none ↦ none
          | some (last, more) ↦ some (
            to_int32 written,
            last,
            events ++ (if ltb 0 written then wake_slave_readers ∷ [] else []) ++ more,
          )
        ]

-- What `master_write` of a typed line has done.
pub record Delivered (tty : TtyDev) (cs : List ℕ) (out : Option (ℤ × TtyDev × List Event))
    : Type 0 where
  pub device : TtyDev
  pub events : List Event
  pub returns : out ≡ some (pos (length cs + 1), device, events)
  pub sent :
      contents device.buffer_master_write ≡ contents tty.buffer_master_write ++ (cs ++ (b'\n' ∷ []))
  pub fresh : device.line_buffer_index ≡ 0
  pub valid : IsValid device

module _ (tty : TtyDev) (c : ℕ) (cs : List ℕ) (nl : ℕ) (v : IsValid tty)
    (canon : has tty.term.c_lflag icanon ≡ true) (plain : AllPlain tty.term (c ∷ cs))
    (newline : Newline tty.term nl) (empty : tty.line_buffer_index ≡ 0)
    (short : length (c ∷ cs) < line_buffer_size - 1)
    (room : length (c ∷ cs) + 1 ≤ fifobuffer_get_free tty.buffer_master_write) where
  abbrev bytes : List ℕ
  bytes = (c ∷ cs) ++ (nl ∷ [])

  abbrev loop : TtyDev × ℕ × List Event
  loop = write_characters bytes (cleared tty) 0 []

  loop-Ended : Ended tty (c ∷ cs) (loop.0, loop.1)
  unfolding write_characters
  loop-Ended =
      let t = write_characters-Typed (c ∷ cs) (cleared tty) 0 [] canon plain v.line (omega arith) in
      let typed = record (cleared tty) {
        buffer_echo = t.echoed;
        line_buffer = t.line;
        line_buffer_index = tty.line_buffer_index + length (c ∷ cs);
      } in
      let (e, step) =
        write_character-Newline typed nl 0 canon newline (omega arith) (omega arith) in
      let line = t.held ∙ ap (λ n. take n tty.line_buffer ++ (c ∷ cs)) empty in
      let ended = line_end-Ended (record typed { buffer_echo = e }) c cs v.input line room in
      rw (write_characters-append (c ∷ cs) (nl ∷ []) (cleared tty) 0 []) (
        rw t.returns
          (rw step (record { count = ended.count; sent = ended.sent; fresh = ended.fresh })))

  -- In canonical mode, with an empty line buffer, a line of characters that are neither changed nor
  -- special (shorter than the line buffer) and then a newline, written in one call with room for
  -- them: `master_write` returns the number of bytes, appends the line and a newline to what the
  -- programs read, empties the line buffer and leaves a valid device.
  pub master_write-Delivered : Delivered tty (c ∷ cs) (master_write tty ((c ∷ cs) ++ (nl ∷ [])))
  unfolding master_write
  master_write-Delivered =
      let (tty', more, eq, v', input, index) =
        flush_echo-IsValid loop.0
          (write_characters-IsValid bytes (cleared tty) 0 [] (cleared-IsValid tty v)) in
      record {
        device = tty';
        events = loop.2 ++ (if ltb 0 loop.1 then wake_slave_readers ∷ [] else []) ++ more;
        returns = master_write-runs tty c (cs ++ (nl ∷ [])) _ all count eq;
        sent = ap contents input ∙ loop-Ended.sent;
        fresh = index ∙ loop-Ended.fresh;
        valid = v';
      }
    where
      len : length bytes ≡ length (c ∷ cs) + 1
      len = length-append (c ∷ cs) (nl ∷ [])

      all : take (min (length bytes) (fifobuffer_get_free tty.buffer_master_write)) bytes ≡ bytes
      all = take-all _ bytes (omega (arith, len, room))

      count : to_int32 loop.1 ≡ pos (length (c ∷ cs) + 1)
      count =
          ap to_int32 loop-Ended.count
          ∙ to_int32-small _ (omega (arith, room, fifobuffer_get_free-sub v.input, v.input.small))
