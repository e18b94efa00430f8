-- ===== src/Tty/Blank.antt =====
-- Canonical mode: a newline on an empty line.
use asterisk.Base.{
  ℕ, ◌-◌, ◌≤◌, ◌≡◌, ◌∙◌, refl, arith, Bool, true, false, List, [], ◌∷◌, pos, ltb, leb, take-all,
  some, to_int32-small,
}
use asterisk.FifoBuffer.{FifoBuffer, fifobuffer_get_free}
use asterisk.Tty.{
  TtyDev, Event, has, icanon, is_erase_character, line_buffer_size, is_escaped, signal_character,
  canonical_character, write_character, write_characters, master_write,
}
use asterisk.Tty.Bounds.{
  IsValid, cleared, cleared-IsValid, flush_echo-IsValid, write_characters-IsValid,
}
use asterisk.Tty.Line.{Newline, echo-shape}
use asterisk.Tty.Deliver.{master_write-runs}

canonical-blank :
    (tty : TtyDev) (d : Bool) (w : ℕ)
    → is_erase_character tty.term b'\n' ≡ false
    → tty.line_buffer_index ≡ 0
    → canonical_character tty d b'\n' w ≡ (tty, w)
unfolding canonical_character
canonical-blank tty d w p empty =
    let e₁ : leb (line_buffer_size - 1) tty.line_buffer_index ≡ false = ground arith in
    let e₂ : ltb 0 tty.line_buffer_index ≡ false = ground arith in rw e₁ (rw p (rw e₂ refl))

blank-step :
    (tty : TtyDev) (c w : ℕ)
    → has tty.term.c_lflag icanon ≡ true
    → Newline tty.term c
    → tty.line_buffer_index ≡ 0
    → (e : FifoBuffer) × (write_character tty c w
        ≡ (record tty { buffer_echo = e }, w, signal_character tty b'\n'))
unfolding write_character
blank-step tty c w canon nl empty =
    let (e, shape) = echo-shape tty b'\n' in
    let step =
      canonical-blank (record tty { buffer_echo = e }) (is_escaped tty.term b'\n') w nl.1 empty in
    (e, rw nl.0 (rw canon (rw shape (rw step refl))))

-- In canonical mode, with an empty line buffer, a newline that is written alone reaches no program,
-- though there is room for it: `master_write` returns 0 and leaves what the programs read as it
-- was.
pub master_write-blank :
    (tty : TtyDev) (nl : ℕ)
    → IsValid tty
    → has tty.term.c_lflag icanon ≡ true
    → Newline tty.term nl
    → tty.line_buffer_index ≡ 0
    → 1 ≤ fifobuffer_get_free tty.buffer_master_write
    → (tty' : TtyDev) × (events : List Event) × (master_write tty (nl ∷ [])
        ≡ some (pos 0, tty', events))
      × (tty'.buffer_master_write ≡ tty.buffer_master_write)
unfolding write_characters
master_write-blank tty nl v canon newline empty room =
    let (e, step) = blank-step (cleared tty) nl 0 canon newline empty in
    let (tty', more, eq, _, input, _) =
      flush_echo-IsValid _
        (write_characters-IsValid (nl ∷ []) (cleared tty) 0 [] (cleared-IsValid tty v)) in
    let all = take-all _ (nl ∷ []) (omega (arith, room)) in
    (
      tty',
      _,
      master_write-runs tty nl [] (pos 0) all (rw step (to_int32-small 0 (omega arith))) eq,
      input ∙ rw step refl,
    )
