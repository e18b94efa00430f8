-- ===== src/Tty/Output.antt =====
-- What a program's output becomes on its way to the master: `process_slave_write` and
-- `slave_write`.
use asterisk.Base.{
  ℕ, ◌+◌, ◌-◌, ◌%◌, ◌^◌, ◌≤◌, ◌<◌, ◌≡◌, ◌∙◌, sym, refl, ap, subst, arith, Bool, true, false, ◌&&◌,
  List, [], ◌∷◌, ◌++◌, ℤ, pos, length, ltb, leb, ◌==◌, if◌then◌else◌, append_assoc, append-nil,
  length-append, take, take-all, min,
}
use native.Mathlib.Nat.{zero-add}
use asterisk.FifoBuffer.{FifoBuffer, fifobuffer_enqueue, fifobuffer_get_free}
use asterisk.FifoBuffer.Valid.{IsValid, fifobuffer_get_free-sub}
use asterisk.FifoBuffer.Contents.{contents, length-contents}
use asterisk.FifoBuffer.Fits.{enqueue-Enqueued}
use asterisk.Tty.Programs.{
  output_character, output_loop, process_slave_write, slave_write_end, slave_write, grown,
}
use asterisk.Tty.{TtyDev, has, onlcr, ocrnl, onlret}

-- The output flags as a translation of bytes: with OCRNL a carriage return becomes a newline, with
-- ONLRET one is dropped, with ONLCR a newline becomes a carriage return and a newline.
unfoldable pub translate : ℕ → ℕ → List ℕ
translate oflag c =
    if c == b'\r' && has oflag ocrnl
    then b'\n' ∷ []
    else if c == b'\r' && has oflag onlret
    then []
    else if c == b'\n' && has oflag onlcr
    then b'\r' ∷ b'\n' ∷ []
    else c ∷ []

unfoldable pub translate_all : ℕ → List ℕ → List ℕ
translate_all oflag [] = []
translate_all oflag (c ∷ bytes) = translate oflag c ++ translate_all oflag bytes

-- What putting the bytes `xs` into `f` has done, for one byte of output.
record Appended (f : FifoBuffer) (xs : List ℕ) (out : FifoBuffer × ℕ) : Type 0 where
  counted : out.1 ≡ 1
  held : contents out.0 ≡ contents f ++ xs
  valid : IsValid out.0
  capacity : out.0.capacity ≡ f.capacity

one_more : (r : ℤ) → r ≡ pos 1 → grown r ≡ 1
one_more r e = rw e refl

put_one :
    (f : FifoBuffer) (c : ℕ)
    → IsValid f
    → 1 ≤ fifobuffer_get_free f
    → Appended f
        (c ∷ [])
        ((fifobuffer_enqueue f (c ∷ [])).1, grown (fifobuffer_enqueue f (c ∷ [])).0)
put_one f c v h =
    let e = enqueue-Enqueued c [] v h in
    record {
      counted = one_more (fifobuffer_enqueue f (c ∷ [])).0 e.count;
      held = e.held;
      valid = e.valid;
      capacity = e.capacity;
    }

free-after :
    (f g : FifoBuffer) (n : ℕ)
    → IsValid f
    → IsValid g
    → g.capacity ≡ f.capacity
    → length (contents g) ≡ length (contents f) + n
    → fifobuffer_get_free g ≡ fifobuffer_get_free f - n
free-after f g n v w e h = omega (
  arith,
  fifobuffer_get_free-sub v,
  fifobuffer_get_free-sub w,
  length-contents f,
  length-contents g,
)

put_two :
    (f : FifoBuffer)
    → IsValid f
    → 2 ≤ fifobuffer_get_free f
    → Appended f
        (b'\r' ∷ b'\n' ∷ [])
        ((fifobuffer_enqueue (fifobuffer_enqueue f (b'\r' ∷ [])).1 (b'\n' ∷ [])).1, 1)
put_two f v h =
    let e = enqueue-Enqueued b'\r' [] v (omega arith) in
    let g = (fifobuffer_enqueue f (b'\r' ∷ [])).1 in
    let left =
      free-after f g 1 v e.valid e.capacity
        (ap (length {A = ℕ}) e.held ∙ length-append (contents f) (b'\r' ∷ [])) in
    let e' = enqueue-Enqueued b'\n' [] e.valid (omega (arith, left)) in
    record {
      counted = refl;
      held =
          e'.held
          ∙ ap (λ l. l ++ (b'\n' ∷ [])) e.held
          ∙ append_assoc (contents f) (b'\r' ∷ []) (b'\n' ∷ []);
      valid = e'.valid;
      capacity = e'.capacity ∙ e.capacity;
    }

-- The four branches of the translation and of the code, side by side.
branches :
    (c : ℕ) (f : FifoBuffer) (b₁ b₂ b₃ : Bool)
    → IsValid f
    → length
        (if b₁ then b'\n' ∷ [] else if b₂ then [] else if b₃ then b'\r' ∷ b'\n' ∷ [] else c ∷ [])
      ≤ fifobuffer_get_free f
    → Appended f
        (if b₁ then b'\n' ∷ [] else if b₂ then [] else if b₃ then b'\r' ∷ b'\n' ∷ [] else c ∷ [])
        (if b₁
          then ((fifobuffer_enqueue f (b'\n' ∷ [])).1, grown (fifobuffer_enqueue f (b'\n' ∷ [])).0)
          else if b₂
          then (f, 1)
          else if b₃
          then (if leb 2 (fifobuffer_get_free f)
              then ((fifobuffer_enqueue (fifobuffer_enqueue f (b'\r' ∷ [])).1 (b'\n' ∷ [])).1, 1)
              else (f, 0))
          else ((fifobuffer_enqueue f (c ∷ [])).1, grown (fifobuffer_enqueue f (c ∷ [])).0))
branches c f true b₂ b₃ v h = put_one f b'\n' v h
branches c f false true b₃ v h = record {
  counted = refl;
  held = sym (append-nil (contents f));
  valid = v;
  capacity = refl;
}
branches c f false false true v h =
    let e : leb 2 (fifobuffer_get_free f) ≡ true = ground arith in rw e (put_two f v h)
branches c f false false false v h = put_one f c v h

output_character-Appended :
    (oflag c : ℕ) (f : FifoBuffer)
    → IsValid f
    → length (translate oflag c) ≤ fifobuffer_get_free f
    → Appended f (translate oflag c) (output_character oflag f c)
unfolding output_character translate
output_character-Appended oflag c f v h =
    branches c f (c == b'\r' && has oflag ocrnl) (c == b'\r' && has oflag onlret)
      (c == b'\n' && has oflag onlcr) v h

output_loop-translate_all :
    (oflag : ℕ) (bytes : List ℕ) (f : FifoBuffer) (written : ℕ)
    → IsValid f
    → length (translate_all oflag bytes) ≤ fifobuffer_get_free f
    → written + length bytes < 2 ^ 32
    → let (f', written') = output_loop oflag bytes f written in
      (written' ≡ written + length bytes)
      × (contents f' ≡ contents f ++ translate_all oflag bytes)
      × IsValid f'
unfolding output_loop translate_all
output_loop-translate_all oflag [] f written v h b = (omega arith, sym (append-nil (contents f)), v)
output_loop-translate_all oflag (c ∷ bytes) f written v h b =
    let xs = translate oflag c in
    let rest = translate_all oflag bytes in
    let split = length-append xs rest in
    let p = output_character-Appended oflag c f v (omega arith) in
    let out = output_character oflag f c in
    let left =
      free-after f out.0 (length xs) v p.valid p.capacity
        (ap (length {A = ℕ}) p.held ∙ length-append (contents f) xs) in
    let one = p.counted in
    let (n, held, v') =
      output_loop-translate_all oflag bytes out.0 ((written + out.1) % 2 ^ 32) p.valid (omega arith)
        (omega arith) in
    (n ∙ omega arith, held ∙ ap (λ l. l ++ rest) p.held ∙ append_assoc (contents f) xs rest, v')

slave_write_end-taken :
    (n : ℕ) (tty : TtyDev)
    → 0 < n
    → n < 2 ^ 31
    → ((slave_write_end (n, tty)).0 ≡ pos n) × ((slave_write_end (n, tty)).1 ≡ tty)
unfolding slave_write_end
slave_write_end-taken n tty p h =
    let e : (ltb 0 n && ltb n (2 ^ 31)) ≡ true = ground arith in (rw e refl, rw e refl)

-- `slave_write` of bytes that are no more than the free room of the buffer, and whose translation
-- fits into it too, takes them all: it returns their number, and the master will read, after what
-- was there, exactly the translation of the bytes.
pub slave_write-translate_all :
    (tty : TtyDev) (c : ℕ) (bytes : List ℕ)
    → IsValid tty.buffer_master_read
    → length (translate_all tty.term.c_oflag (c ∷ bytes))
      ≤ fifobuffer_get_free tty.buffer_master_read
    → length (c ∷ bytes) ≤ fifobuffer_get_free tty.buffer_master_read
    → let (r, tty', _) = slave_write tty (c ∷ bytes) in
      (r ≡ pos (length (c ∷ bytes)))
      × (contents tty'.buffer_master_read
          ≡ contents tty.buffer_master_read ++ translate_all tty.term.c_oflag (c ∷ bytes))
      × IsValid tty'.buffer_master_read
unfolding slave_write process_slave_write
slave_write-translate_all tty c bytes v fits h =
    let f = tty.buffer_master_read in
    let free = fifobuffer_get_free-sub v in
    let small = v.small in
    let all : take (min (length (c ∷ bytes)) (fifobuffer_get_free f)) (c ∷ bytes) ≡ c ∷ bytes =
      take-all _ (c ∷ bytes) (omega arith) in
    let e₁ : (length (c ∷ bytes) == 0) ≡ false = ground arith in
    let e₂ : ltb 0 (fifobuffer_get_free f) ≡ true = ground arith in
    let (n, held, v') =
      output_loop-translate_all tty.term.c_oflag (c ∷ bytes) f 0 v fits (omega arith) in
    let p : 0 < (output_loop tty.term.c_oflag (c ∷ bytes) f 0).1 = omega (arith, n) in
    let q : (output_loop tty.term.c_oflag (c ∷ bytes) f 0).1 < 2 ^ 31 = omega (arith, n) in
    let (count, same) = slave_write_end-taken _ _ p q in
    rw (e₁, if◌then◌else◌)
      (rw e₂ (
        rw all (
          count ∙ ap pos n ∙ ap pos (zero-add (length (c ∷ bytes))),
          ap (λ (t : TtyDev). contents t.buffer_master_read) same ∙ held,
          subst (λ (t : TtyDev). IsValid t.buffer_master_read) (sym same) v',
        )))
