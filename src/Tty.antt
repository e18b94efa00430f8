-- ===== src/Tty.antt =====
-- kernel/ttydev.c: the line discipline between a terminal (the master) and its programs (the
-- slave). A function that changes `*tty` returns the new device; what it asks of other parts of the
-- kernel is a list of events, in order.
pub mod Programs
pub mod Output
pub mod Read
pub mod Control
pub mod Line
pub mod Deliver
pub mod Blank
pub mod Bounds
mod Examples
use asterisk.Base.{
  ℕ, zero, suc, ◌+◌, ◌-◌, ◌*◌, ◌/◌, ◌%◌, ◌^◌, ◌≤◌, Bool, true, false, not, ◌&&◌, ◌||◌, List, [],
  ◌∷◌, ◌++◌, ℤ, pos, negsuc, neg, to_int32, ltb, leb, ◌==◌, if◌then◌else◌, get_or, set, take,
  replicate, length, min, Option, none, some,
}
use asterisk.FifoBuffer.{
  FifoBuffer, fifobuffer_create, fifobuffer_clear, fifobuffer_get_size, fifobuffer_get_free,
  fifobuffer_enqueue, fifobuffer_dequeue, fifobuffer_enqueue_from_other,
}

-- `struct termios`, less the fields that ttydev.c does not read
pub record Termios : Type 0 where
  pub c_iflag : ℕ
  pub c_oflag : ℕ
  pub c_lflag : ℕ
  pub c_cc : List ℕ

-- `flags & 2^k`
abbrev pub has : ℕ → ℕ → Bool
has flags k = flags / 2 ^ k % 2 == 1

-- The bits and the indices of `c_cc` in kernel/termios.h.
abbrev pub istrip : ℕ
istrip = 5

abbrev pub inlcr : ℕ
inlcr = 6

abbrev pub igncr : ℕ
igncr = 7

abbrev pub icrnl : ℕ
icrnl = 8

abbrev pub onlcr : ℕ
onlcr = 2

abbrev pub ocrnl : ℕ
ocrnl = 3

abbrev pub onlret : ℕ
onlret = 5

abbrev pub isig : ℕ
isig = 0

abbrev pub icanon : ℕ
icanon = 1

abbrev pub echo : ℕ
echo = 3

abbrev pub vintr : ℕ
vintr = 0

abbrev pub vquit : ℕ
vquit = 1

abbrev pub verase : ℕ
verase = 2

abbrev pub vmin : ℕ
vmin = 6

abbrev pub vsusp : ℕ
vsusp = 10

abbrev pub line_buffer_size : ℕ
line_buffer_size = 4096

pub record Winsize : Type 0 where
  pub ws_row : ℕ
  pub ws_col : ℕ
  pub ws_xpixel : ℕ
  pub ws_ypixel : ℕ

-- `struct TtyDev`, less its file nodes and locks
pub record TtyDev : Type 0 where
  pub winsize : Winsize
  pub foreground_process : ℤ
  pub term : Termios
  pub buffer_master_write : FifoBuffer
  pub buffer_master_read : FifoBuffer
  pub buffer_echo : FifoBuffer
  pub line_buffer : List ℕ
  pub line_buffer_index : ℕ
  pub has_ready_callback : Bool

-- `process_signal`, `wake_slave_readers`, the call of `master_read_ready` with the number of bytes,
-- and the resumption of `master_reader`, if it waits for this device
pub data Event : Type 0 where
  signal : ℤ → ℕ → Event
  wake_slave_readers : Event
  master_read_ready : ℕ → Event
  wake_master_reader : Event

-- Of the device these read only `tty->term`.
abbrev pub cc : Termios → ℕ → ℕ
cc term i = get_or term.c_cc i 0

abbrev pub is_erase_character : Termios → ℕ → Bool
is_erase_character term c = c == cc term verase

abbrev pub iscntrl : ℕ → Bool
iscntrl c = ltb c 0x20 || c == 0x7f

-- `(uint32_t) r` of an `int32_t`
abbrev pub to_uint32 : ℤ → ℕ
to_uint32 (pos n) = n % 2 ^ 32
to_uint32 (negsuc n) = 2 ^ 32 - 1 - n

abbrev pub is_negative : ℤ → Bool
is_negative (pos n) = false
is_negative (negsuc n) = true

-- Whether the character is used, and what it becomes.
unfoldable pub override_character_master_write : Termios → ℕ → Bool × ℕ
override_character_master_write term c =
    let c₁ = if has term.c_iflag istrip then c % 2 ^ 7 else c in
    let use_it = not (c₁ == b'\r' && has term.c_iflag igncr) in
    let c₂ =
      if c₁ == b'\r' && has term.c_iflag igncr
      then c₁
      else if c₁ == b'\n' && has term.c_iflag inlcr
      then b'\r'
      else if c₁ == b'\r' && has term.c_iflag icrnl
      then b'\n'
      else c₁ in
    (use_it, if c₂ == 8 then cc term verase else c₂)

abbrev pub echo_bytes : TtyDev → List ℕ → TtyDev
echo_bytes tty bytes = record tty { buffer_echo = (fifobuffer_enqueue tty.buffer_echo bytes).1 }

-- The test under which a character is shown as `^` and a letter.
abbrev pub is_escaped : Termios → ℕ → Bool
is_escaped term c =
    has term.c_lflag echo
    && (iscntrl c && not (is_erase_character term c) && not (c == b'\n') && not (c == b'\r'))

-- The echo of one character.
unfoldable pub echo_character : TtyDev → ℕ → TtyDev
echo_character tty c =
    if is_escaped tty.term c
    then echo_bytes tty (b'^' ∷ ((b'@' + c) % 128) ∷ [])
    else if has tty.term.c_lflag echo && not (c == 127)
    then echo_bytes tty (c ∷ [])
    else tty

-- The signal that one character makes.
unfoldable pub signal_character : TtyDev → ℕ → List Event
signal_character tty c =
    if has tty.term.c_lflag isig && not (is_negative tty.foreground_process)
    then (if c == cc tty.term vintr
        then signal tty.foreground_process 2 ∷ []
        else if c == cc tty.term vsusp
        then signal tty.foreground_process 20 ∷ []
        else if c == cc tty.term vquit
        then signal tty.foreground_process 3 ∷ []
        else [])
    else []

-- `line_buffer[i] = c`; a store outside the array leaves none of it.
unfoldable pub store_line : List ℕ → (i c : ℕ) → List ℕ
store_line line i c = if ltb i (length line) then set line i c else []

-- `line_buffer[line_buffer_index++] = c`
abbrev pub line_push : TtyDev → ℕ → TtyDev
line_push tty c = record tty {
  line_buffer = store_line tty.line_buffer tty.line_buffer_index c;
  line_buffer_index = (tty.line_buffer_index + 1) % 2 ^ 32;
}

-- `--line_buffer_index` on `uint32_t`
abbrev pub index_before : ℕ → ℕ
index_before i = (i + 2 ^ 32 - 1) % 2 ^ 32

-- `line_buffer[--line_buffer_index] = 0`, and the three bytes that wipe the character
abbrev pub line_erase : TtyDev → TtyDev
line_erase tty =
    echo_bytes
      (echo_bytes
        (echo_bytes
          (record tty {
            line_buffer = store_line tty.line_buffer (index_before tty.line_buffer_index) 0;
            line_buffer_index = index_before tty.line_buffer_index;
          })
          (8 ∷ []))
        (b' ' ∷ []))
      (8 ∷ [])

-- The end of a line: the device, and the new value of `written`.
unfoldable pub line_end : TtyDev → TtyDev × ℕ
line_end tty =
    let n = tty.line_buffer_index in
    let (r, f) = fifobuffer_enqueue tty.buffer_master_write (take n tty.line_buffer) in
    let (r', f') = fifobuffer_enqueue f (b'\n' ∷ []) in
    let tty' = record tty { line_buffer_index = 0; buffer_master_write = f' } in
    (
      if has tty.term.c_lflag echo then echo_bytes tty' (b'\r' ∷ []) else tty',
      (to_uint32 r + to_uint32 r') % 2 ^ 32,
    )

-- The canonical branch of the loop of `master_write`; `escaped` is `is_escaped` of the character.
unfoldable pub canonical_character : TtyDev → (escaped : Bool) → ℕ → ℕ → TtyDev × ℕ
canonical_character tty₀ escaped c written =
    let tty = record tty₀ {
      line_buffer_index =
          if leb (line_buffer_size - 1) tty₀.line_buffer_index then 0 else tty₀.line_buffer_index;
    } in
    if is_erase_character tty.term c
    then (if ltb 0 tty.line_buffer_index then (line_erase tty, written) else (tty, written))
    else if c == b'\n'
    then (if ltb 0 tty.line_buffer_index then line_end tty else (tty, written))
    else if escaped
    then (if ltb tty.line_buffer_index (line_buffer_size - 2)
        then (line_push (line_push tty b'^') ((b'@' + c) % 128), written)
        else (tty, written))
    else if ltb tty.line_buffer_index (line_buffer_size - 1)
    then (line_push tty c, written)
    else (tty, written)

-- One round of the loop of `master_write`.
unfoldable pub write_character : TtyDev → ℕ → ℕ → TtyDev × ℕ × List Event
write_character tty c₀ written =
    let (use_it, c) = override_character_master_write tty.term c₀ in
    if use_it
    then (let events = signal_character tty c in
        let tty₁ = echo_character tty c in
        if has tty.term.c_lflag icanon
        then (let (tty₂, written') = canonical_character tty₁ (is_escaped tty.term c) c written in
            (tty₂, written', events))
        else (let (r, f) = fifobuffer_enqueue tty₁.buffer_master_write (c ∷ []) in
            (record tty₁ { buffer_master_write = f }, (written + to_uint32 r) % 2 ^ 32, events)))
    else (tty, written, [])

unfoldable pub write_characters : List ℕ → TtyDev → ℕ → List Event → TtyDev × ℕ × List Event
write_characters [] tty written events = (tty, written, events)
write_characters (c ∷ bytes) tty written events =
    let (tty', written', more) = write_character tty c written in
    write_characters bytes tty' written' (events ++ more)

-- The calls that tell the master of the bytes in `f`, of which `w` are new.
abbrev pub flush_events : TtyDev → FifoBuffer → ℤ → List Event
flush_events tty f w =
    (if ltb 0 (fifobuffer_get_size f) && tty.has_ready_callback
      then master_read_ready (fifobuffer_get_size f) ∷ []
      else [])
    ++ (if ltb 0 (to_uint32 w) && not (is_negative w) then wake_master_reader ∷ [] else [])

-- What follows the loop: the echo goes to the master. `none` stands for a move that never ends,
-- which cannot happen.
unfoldable pub flush_echo : TtyDev → Option (TtyDev × List Event)
flush_echo tty =
    if ltb 0 (fifobuffer_get_size tty.buffer_echo)
    then elim (fifobuffer_enqueue_from_other tty.buffer_master_read tty.buffer_echo) [
      | none ↦ none
      | some (w, f, e) ↦
          some (record tty { buffer_master_read = f; buffer_echo = e }, flush_events tty f w)
    ]
    else some (tty, [])

unfoldable pub master_write : TtyDev → List ℕ → Option (ℤ × TtyDev × List Event)
master_write tty₀ bytes =
    if length bytes == 0
    then some (neg 1, tty₀, [])
    else (let tty = record tty₀ { buffer_echo = fifobuffer_clear tty₀.buffer_echo } in
        let free = fifobuffer_get_free tty.buffer_master_write in
        let (tty₁, written, events) =
          write_characters (take (min (length bytes) free) bytes) tty 0 [] in
        elim (flush_echo tty₁) [
          | none ↦ none
          | some (tty₂, more) ↦ some (
            to_int32 written,
            tty₂,
            events ++ (if ltb 0 written then wake_slave_readers ∷ [] else []) ++ more,
          )
        ])

-- The modes of a new terminal.
abbrev pub created_term : Termios
created_term =
    let no_keys = replicate 32 0 in
    let keys = set (set (set (set (set no_keys vmin 1) vintr 3) vsusp 26) vquit 28) verase 127 in
    record {
      c_iflag = 2 ^ icrnl;
      c_oflag = 2 ^ onlcr;
      c_lflag = 2 ^ echo + 2 ^ icanon + 2 ^ isig;
      c_cc = keys;
    }

unfoldable pub ttydev_create : TtyDev
ttydev_create = record {
  winsize = record { ws_row = 25; ws_col = 80; ws_xpixel = 0; ws_ypixel = 0 };
  foreground_process = neg 1;
  term = created_term;
  buffer_master_write = fifobuffer_create 4096;
  buffer_master_read = fifobuffer_create 4096;
  buffer_echo = fifobuffer_create 4096;
  line_buffer = replicate line_buffer_size 0;
  line_buffer_index = 0;
  has_ready_callback = false;
}
