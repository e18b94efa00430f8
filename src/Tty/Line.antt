-- ===== src/Tty/Line.antt =====
-- Canonical mode: what is typed is gathered in the line buffer and goes to the programs as a line.
use asterisk.Base.{
  ◌%◌, ◌^◌, ℕ, suc, ◌+◌, ◌-◌, ◌<◌, ◌≡◌, ◌∙◌, sym, refl, ap, arith, true, false, not, ◌&&◌, List, [],
  ◌∷◌, ◌++◌, length, ltb, leb, ◌==◌, if_both, set, take, take-set, length-set, append_assoc,
  append-nil,
}
use asterisk.FifoBuffer.{FifoBuffer}
use asterisk.Tty.Bounds.{store_line-in}
use asterisk.Tty.{
  Termios, TtyDev, Event, has, icanon, echo, line_buffer_size, echo_character, is_escaped,
  is_erase_character, override_character_master_write, signal_character, canonical_character,
  write_character, write_characters,
}

-- A character that is neither changed, nor an erase or newline, nor shown with a `^`.
abbrev pub Plain : Termios → ℕ → Type 0
Plain term c =
    (override_character_master_write term c ≡ (true, c))
    × (is_erase_character term c ≡ false)
    × ((c == b'\n') ≡ false)
    × (is_escaped term c ≡ false)

abbrev pub AllPlain : Termios → List ℕ → Type 0
AllPlain term [] = Unit
AllPlain term (c ∷ cs) = Plain term c × AllPlain term cs

-- A character that arrives as a newline, in a mode where that is not the erase character.
abbrev pub Newline : Termios → ℕ → Type 0
Newline term c =
    (override_character_master_write term c ≡ (true, b'\n'))
    × (is_erase_character term b'\n' ≡ false)

-- The echo changes nothing but the echo buffer.
pub echo-shape :
    (tty : TtyDev) (c : ℕ)
    → (e : FifoBuffer) × (echo_character tty c ≡ record tty { buffer_echo = e })
unfolding echo_character
echo-shape tty c =
    if_both Shape (is_escaped tty.term c) (_, refl)
      (if_both Shape (has tty.term.c_lflag echo && not (c == 127)) (_, refl)
        (tty.buffer_echo, refl))
  where
    Shape : TtyDev → Type 0
    Shape t = (e : FifoBuffer) × (t ≡ record tty { buffer_echo = e })

abbrev typed : TtyDev → FifoBuffer → ℕ → TtyDev
typed tty e c = record tty {
  buffer_echo = e;
  line_buffer = set tty.line_buffer tty.line_buffer_index c;
  line_buffer_index = tty.line_buffer_index + 1;
}

canonical-plain :
    (tty : TtyDev) (c w : ℕ)
    → is_erase_character tty.term c ≡ false
    → (c == b'\n') ≡ false
    → tty.line_buffer_index < line_buffer_size - 2
    → length tty.line_buffer ≡ line_buffer_size
    → canonical_character tty false c w ≡ (typed tty tty.buffer_echo c, w)
unfolding canonical_character
canonical-plain tty c w p q h size =
    let e₁ : leb (line_buffer_size - 1) tty.line_buffer_index ≡ false = ground arith in
    let e₂ : ltb tty.line_buffer_index (line_buffer_size - 1) ≡ true = ground arith in
    let stored = store_line-in tty.line_buffer tty.line_buffer_index c (omega (arith, h, size)) in
    let next : (tty.line_buffer_index + 1) % 2 ^ 32 ≡ tty.line_buffer_index + 1 =
      omega (arith, h) in
    rw e₁ (rw p (rw q (rw e₂ (rw stored (rw next refl)))))

write_character-Plain :
    (tty : TtyDev) (c w : ℕ)
    → has tty.term.c_lflag icanon ≡ true
    → Plain tty.term c
    → tty.line_buffer_index < line_buffer_size - 2
    → length tty.line_buffer ≡ line_buffer_size
    → (e : FifoBuffer) × (write_character tty c w ≡ (typed tty e c, w, signal_character tty c))
unfolding write_character
write_character-Plain tty c w canon p h size =
    let (e, shape) = echo-shape tty c in
    let step = canonical-plain (record tty { buffer_echo = e }) c w p.1 p.2 h size in
    (e, rw p.0 (rw canon (rw p.3 (rw shape (rw step refl)))))

-- What the typing of plain characters has done.
pub record Typed (tty : TtyDev) (cs : List ℕ) (w : ℕ) (out : TtyDev × ℕ × List Event) : Type 0 where
  pub echoed : FifoBuffer
  pub line : List ℕ
  pub events : List Event
  pub returns : out ≡ (
    record tty {
      buffer_echo = echoed;
      line_buffer = line;
      line_buffer_index = tty.line_buffer_index + length cs;
    },
    w,
    events,
  )
  pub room : length line ≡ length tty.line_buffer
  pub held :
      take (tty.line_buffer_index + length cs) line
      ≡ take tty.line_buffer_index tty.line_buffer ++ cs

pub write_characters-Typed :
    (cs : List ℕ) (tty : TtyDev) (w : ℕ) (events : List Event)
    → has tty.term.c_lflag icanon ≡ true
    → AllPlain tty.term cs
    → length tty.line_buffer ≡ line_buffer_size
    → tty.line_buffer_index + length cs < line_buffer_size - 1
    → Typed tty cs w (write_characters cs tty w events)
unfolding write_characters
write_characters-Typed [] tty w events canon plain size h =
    let e : tty.line_buffer_index + 0 ≡ tty.line_buffer_index = omega arith in
    record {
      echoed = tty.buffer_echo;
      line = tty.line_buffer;
      events = events;
      returns = λ i. (record tty { line_buffer_index = sym e i }, w, events);
      room = refl;
      held =
          ap (λ n. take n tty.line_buffer) e
          ∙ sym (append-nil (take tty.line_buffer_index tty.line_buffer));
    }
write_characters-Typed (c ∷ cs) tty w events canon plain size h =
    let (e, step) = write_character-Plain tty c w canon plain.0 (omega arith) size in
    let tty' = typed tty e c in
    let t =
      write_characters-Typed cs tty' w (events ++ signal_character tty c) canon plain.1
        (length-set tty.line_buffer tty.line_buffer_index c ∙ size) (omega arith) in
    let n : tty.line_buffer_index + 1 + length cs ≡ tty.line_buffer_index + suc (length cs) =
      omega arith in
    record {
      echoed = t.echoed;
      line = t.line;
      events = t.events;
      returns = rw step t.returns ∙ (λ i. (
        record tty { buffer_echo = t.echoed; line_buffer = t.line; line_buffer_index = n i },
        w,
        t.events,
      ));
      room = t.room ∙ length-set tty.line_buffer tty.line_buffer_index c;
      held =
          ap (λ k. take k t.line) (sym n)
          ∙ t.held
          ∙ ap (λ l. l ++ cs) (take-set tty.line_buffer tty.line_buffer_index c (omega arith))
          ∙ append_assoc (take tty.line_buffer_index tty.line_buffer) (c ∷ []) cs;
    }
