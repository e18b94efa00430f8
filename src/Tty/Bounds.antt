-- ===== src/Tty/Bounds.antt =====
-- The line buffer is never written out of bounds, and the byte buffers stay valid.
use asterisk.Base.{
  true, ap, set, ℕ, ◌+◌, ◌-◌, ◌%◌, ◌<◌, ◌≡◌, ◌∙◌, refl, arith, Bool, ◌&&◌, not, take, pos, min, ℤ,
  neg, to_int32, List, [], ◌∷◌, ◌++◌, Option, some, length, length-set, length-replicate, ltb, leb,
  ◌==◌, if◌then◌else◌, if_both, if_each, ltb→lt, Bool-cases, inl, inr,
}
use asterisk.FifoBuffer
use asterisk.FifoBuffer.{
  FifoBuffer, fifobuffer_get_size, fifobuffer_get_free, fifobuffer_clear, fifobuffer_enqueue,
  fifobuffer_enqueue_from_other,
}
use asterisk.FifoBuffer.Valid.{fifobuffer_clear-IsValid, fifobuffer_create-IsValid}
use asterisk.FifoBuffer.Fits.{fifobuffer_enqueue-IsValid}
use asterisk.FifoBuffer.Transfer.{fifobuffer_enqueue_from_other_lem, room}
use asterisk.Tty.{
  TtyDev, ttydev_create, Event, wake_slave_readers, line_buffer_size, echo_bytes, echo_character,
  store_line, index_before, line_push, line_erase, line_end, canonical_character, is_escaped,
  is_erase_character, has, echo, icanon, override_character_master_write, write_character,
  write_characters, flush_echo, flush_events, master_write,
}

pub record IsValid (tty : TtyDev) : Type 0 where
  pub line : length tty.line_buffer ≡ line_buffer_size
  pub index : tty.line_buffer_index < line_buffer_size
  pub input : FifoBuffer.Valid.IsValid tty.buffer_master_write
  pub output : FifoBuffer.Valid.IsValid tty.buffer_master_read
  pub echoed : FifoBuffer.Valid.IsValid tty.buffer_echo

pub echo_bytes-IsValid :
    (tty : TtyDev) (bytes : List ℕ) → IsValid tty → IsValid (echo_bytes tty bytes)
echo_bytes-IsValid tty bytes v = record {
  line = v.line;
  index = v.index;
  input = v.input;
  output = v.output;
  echoed = fifobuffer_enqueue-IsValid bytes v.echoed;
}

pub echo_character-IsValid : (tty : TtyDev) (c : ℕ) → IsValid tty → IsValid (echo_character tty c)
unfolding echo_character
echo_character-IsValid tty c v =
    if_both IsValid (is_escaped tty.term c)
      (echo_bytes-IsValid tty (b'^' ∷ ((b'@' + c) % 128) ∷ []) v)
      (if_both IsValid (has tty.term.c_lflag echo && not (c == 127))
        (echo_bytes-IsValid tty (c ∷ []) v) v)

-- A store within the line buffer.
pub store_line-in : (line : List ℕ) (i c : ℕ) → i < length line → store_line line i c ≡ set line i c
unfolding store_line
store_line-in line i c h = (let e : ltb i (length line) ≡ true = ground arith in rw e refl)

length-store_line :
    (line : List ℕ) (i c : ℕ) → i < length line → length (store_line line i c) ≡ length line
length-store_line line i c h = ap length (store_line-in line i c h) ∙ length-set line i c

-- The next character has its place in the line buffer.
pub line_push-IsValid :
    (tty : TtyDev) (c : ℕ)
    → tty.line_buffer_index + 1 < line_buffer_size
    → IsValid tty
    → IsValid (line_push tty c)
line_push-IsValid tty c h v = record {
  line =
      length-store_line tty.line_buffer tty.line_buffer_index c
        (let i = v.index in let l = v.line in omega (arith, i, l))
      ∙ v.line;
  index = omega (arith, h);
  input = v.input;
  output = v.output;
  echoed = v.echoed;
}

-- An erase has a character to wipe.
line_erase-IsValid :
    (tty : TtyDev) → 0 < tty.line_buffer_index → IsValid tty → IsValid (line_erase tty)
line_erase-IsValid tty some_left v = echo_bytes-IsValid _ _ (
    echo_bytes-IsValid _ _ (
      echo_bytes-IsValid _ _ (record {
        line =
            length-store_line tty.line_buffer (index_before tty.line_buffer_index) 0
              (let i = v.index in let l = v.line in omega (arith, i, l, some_left))
            ∙ v.line;
        index = let i = v.index in omega (arith, i, some_left);
        input = v.input;
        output = v.output;
        echoed = v.echoed;
      })))

-- The device after a line has gone to the programs.
abbrev ended : TtyDev → TtyDev
ended tty = record tty {
  line_buffer_index = 0;
  buffer_master_write =
      (fifobuffer_enqueue
        (fifobuffer_enqueue tty.buffer_master_write (take tty.line_buffer_index tty.line_buffer)).1
        (b'\n' ∷ [])).1;
}

line_end-IsValid : (tty : TtyDev) → IsValid tty → IsValid (line_end tty).0
unfolding line_end
line_end-IsValid tty v =
    if_both IsValid (has tty.term.c_lflag echo) (echo_bytes-IsValid (ended tty) (b'\r' ∷ []) after)
      after
  where
    after : IsValid (ended tty)
    after = record {
      line = v.line;
      index = omega arith;
      input = fifobuffer_enqueue-IsValid _ (fifobuffer_enqueue-IsValid _ v.input);
      output = v.output;
      echoed = v.echoed;
    }

abbrev Valid0 : TtyDev × ℕ → Type 0
Valid0 out = IsValid out.0

-- The index at which a character may be stored.
abbrev wrapped_index : TtyDev → ℕ
wrapped_index tty =
    if leb (line_buffer_size - 1) tty.line_buffer_index then 0 else tty.line_buffer_index

wrapped : TtyDev → TtyDev
wrapped tty = record tty { line_buffer_index = wrapped_index tty }

wrapped-IsValid :
    (tty : TtyDev)
    → IsValid tty
    → IsValid (wrapped tty) × (wrapped_index tty < line_buffer_size - 1)
unfolding wrapped
wrapped-IsValid tty v = (
  record {
    line = v.line;
    index = omega (arith, small);
    input = v.input;
    output = v.output;
    echoed = v.echoed;
  },
  small,
)
  where
    small : wrapped_index tty < line_buffer_size - 1
    small = let i = v.index in ground arith

pub canonical_character-IsValid :
    (tty : TtyDev) (e : Bool) (c written : ℕ)
    → IsValid tty
    → IsValid (canonical_character tty e c written).0
unfolding canonical_character wrapped
canonical_character-IsValid tty₀ e c written v₀ =
    let tty = wrapped tty₀ in
    let (v, small) = wrapped-IsValid tty₀ v₀ in
    if_both Valid0 (is_erase_character tty.term c)
      (if_each Valid0 (ltb 0 tty.line_buffer_index)
        (λ h. line_erase-IsValid tty (ltb→lt 0 tty.line_buffer_index h) v) (λ h. v))
      (if_both Valid0 (c == b'\n')
        (if_both Valid0 (ltb 0 tty.line_buffer_index) (line_end-IsValid tty v) v)
        (if_both Valid0 e
          (if_each Valid0 (ltb tty.line_buffer_index (line_buffer_size - 2))
            (λ h.
              line_push-IsValid (line_push tty b'^') ((b'@' + c) % 128)
                (omega (arith, ltb→lt _ _ h))
                (line_push-IsValid tty b'^' (omega (arith, ltb→lt _ _ h)) v))
            (λ h. v))
          (if_each Valid0 (ltb tty.line_buffer_index (line_buffer_size - 1))
            (λ h. line_push-IsValid tty c (omega (arith, ltb→lt _ _ h)) v) (λ h. v))))

pub write_character-IsValid :
    (tty : TtyDev) (c written : ℕ) → IsValid tty → IsValid (write_character tty c written).0
unfolding write_character
write_character-IsValid tty c₀ written v =
    let o = override_character_master_write tty.term c₀ in
    let c = o.1 in
    let tty₁ = echo_character tty c in
    let v₁ = echo_character-IsValid tty c v in
    if_both (λ (out : TtyDev × ℕ × List Event). IsValid out.0) o.0
      (if_both (λ (out : TtyDev × ℕ × List Event). IsValid out.0) (has tty.term.c_lflag icanon)
        (canonical_character-IsValid tty₁ (is_escaped tty.term c) c written v₁)
        (record {
          line = v₁.line;
          index = v₁.index;
          input = fifobuffer_enqueue-IsValid _ v₁.input;
          output = v₁.output;
          echoed = v₁.echoed;
        }))
      v

pub write_characters-IsValid :
    (bytes : List ℕ) (tty : TtyDev) (written : ℕ) (events : List Event)
    → IsValid tty
    → IsValid (write_characters bytes tty written events).0
unfolding write_characters
write_characters-IsValid [] tty written events v = v
write_characters-IsValid (c ∷ bytes) tty written events v =
    write_characters-IsValid bytes _ _ _ (write_character-IsValid tty c written v)

-- The echo always gets to the master.
pub flush_echo-IsValid :
    (tty : TtyDev)
    → IsValid tty
    → (tty' : TtyDev) × (events : List Event) × (flush_echo tty ≡ some (tty', events))
      × IsValid tty'
      × (tty'.buffer_master_write ≡ tty.buffer_master_write)
      × (tty'.line_buffer_index ≡ tty.line_buffer_index)
unfolding flush_echo
flush_echo-IsValid tty v = elim (Bool-cases (ltb 0 (fifobuffer_get_size tty.buffer_echo))) [
  | inr empty ↦ (tty, [], rw empty refl, v, refl, refl)
  | inl more ↦
      let (f, e, eq, _, _, vf, ve) = fifobuffer_enqueue_from_other_lem v.output v.echoed in
      (
        record tty { buffer_master_read = f; buffer_echo = e },
        flush_events tty f (pos (min (room tty.buffer_master_read) tty.buffer_echo.used_bytes)),
        rw (more, eq) refl,
        record { line = v.line; index = v.index; input = v.input; output = vf; echoed = ve },
        refl,
        refl,
      )
]

abbrev pub cleared : TtyDev → TtyDev
cleared tty = record tty { buffer_echo = fifobuffer_clear tty.buffer_echo }

pub cleared-IsValid : (tty : TtyDev) → IsValid tty → IsValid (cleared tty)
cleared-IsValid tty v = record {
  line = v.line;
  index = v.index;
  input = v.input;
  output = v.output;
  echoed = fifobuffer_clear-IsValid v.echoed;
}

-- What `master_write` leaves: a device that is valid again.
pub record Written (out : Option (ℤ × TtyDev × List Event)) : Type 0 where
  pub result : ℤ
  pub device : TtyDev
  pub events : List Event
  pub returns : out ≡ some (result, device, events)
  pub valid : IsValid device

-- `master_write` of any bytes to a valid device returns, and leaves the device valid: the three
-- byte buffers are, and the index of the line buffer is within it; and no byte is stored outside
-- the line buffer, which would leave none of it.
pub master_write-Written :
    (tty : TtyDev) (bytes : List ℕ) → IsValid tty → Written (master_write tty bytes)
unfolding master_write
master_write-Written tty₀ bytes v = elim (Bool-cases (length bytes == 0)) [
  | inl empty ↦ record {
    result = neg 1;
    device = tty₀;
    events = [];
    returns = rw empty refl;
    valid = v;
  }
  | inr some_bytes ↦
      let tty = cleared tty₀ in
      let used = take (min (length bytes) (fifobuffer_get_free tty.buffer_master_write)) bytes in
      let loop = write_characters used tty 0 [] in
      let (tty', more, eq, v', _, _) =
        flush_echo-IsValid loop.0
          (write_characters-IsValid used tty 0 [] (cleared-IsValid tty₀ v)) in
      record {
        result = to_int32 loop.1;
        device = tty';
        events = loop.2 ++ (if ltb 0 loop.1 then wake_slave_readers ∷ [] else []) ++ more;
        returns = rw some_bytes (rw eq refl);
        valid = v';
      }
]

-- The device as created is valid.
ttydev_create-IsValid : IsValid ttydev_create
unfolding ttydev_create
ttydev_create-IsValid = record {
  line = length-replicate {A = ℕ} 4096 0;
  index = omega arith;
  input = fifobuffer_create-IsValid 4096 (omega arith) (omega arith);
  output = fifobuffer_create-IsValid 4096 (omega arith) (omega arith);
  echoed = fifobuffer_create-IsValid 4096 (omega arith) (omega arith);
}
