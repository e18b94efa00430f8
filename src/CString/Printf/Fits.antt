-- ===== src/CString/Printf/Fits.antt =====
-- Whether sprintf stays in the buffer.
use asterisk.Base.{
  ℕ, zero, suc, ◌+◌, ◌-◌, ◌%◌, ◌^◌, ◌≤◌, ◌<◌, ◌≡◌, ◌∙◌, refl, ap, arith, true, false, List, [], ◌∷◌,
  ◌++◌, append_assoc, Option, none, some, leb, lt→ltb, le→ltb, ◌==◌, length, length-append, take,
}
use asterisk.CString.Printf.{
  Argument, text, string_at, converted, terminate, write_then, sprintf_loop, sprintf_va, sprintf,
}
use asterisk.CString.Compare.{NoZero}

-- Bytes that stand for themselves
abbrev pub Plain : List ℕ → Type 0
Plain [] = true ≡ true
Plain (c ∷ s) = ((c == 0) ≡ false) × ((c == 10) ≡ false) × ((c == b'%') ≡ false) × Plain s

sprintf_loop-end :
    (capacity size : ℕ) (rest : List ℕ) (args : List Argument) (out : List ℕ)
    → sprintf_loop capacity size false (0 ∷ rest) args out ≡ terminate capacity out
unfolding sprintf_loop
sprintf_loop-end capacity size [] args out = refl
sprintf_loop-end capacity size (x ∷ rest) args out = refl

sprintf_loop-plain :
    (capacity size c : ℕ) (f rest : List ℕ) (args : List Argument) (out : List ℕ)
    → (c == 0) ≡ false
    → (c == 10) ≡ false
    → (c == b'%') ≡ false
    → sprintf_loop capacity size false (c ∷ (f ++ (0 ∷ rest))) args out
      ≡ write_then capacity size out
          (c ∷ [])
          (sprintf_loop capacity size false (f ++ (0 ∷ rest)) args)
unfolding sprintf_loop
sprintf_loop-plain capacity size c [] rest args out e n p = rw (e, sprintf_loop, n, p) refl
sprintf_loop-plain capacity size c (d ∷ f) rest args out e n p = rw (e, sprintf_loop, n, p) refl

terminate-room :
    (capacity : ℕ) (out : List ℕ)
    → length out < capacity
    → terminate capacity out ≡ some (out ++ (0 ∷ []))
terminate-room capacity out h = rw (lt→ltb (length out) capacity h) refl

write_then-more :
    (capacity size : ℕ) (out bytes : List ℕ) (continue : List ℕ → Option (List ℕ))
    → length (out ++ bytes) ≤ capacity
    → 0 < size
    → size < 2 ^ 32
    → length (out ++ bytes) + 1 < size
    → write_then capacity size out bytes continue ≡ continue (out ++ bytes)
write_then-more capacity size out bytes continue fits positive small more =
    let inside = le→ltb capacity (length (out ++ bytes)) fits in
    let on : leb ((size + 2 ^ 32 - 1) % 2 ^ 32) (length (out ++ bytes)) ≡ false =
      gt_leb ((size + 2 ^ 32 - 1) % 2 ^ 32) (length (out ++ bytes))
        (omega (arith, positive, small, more)) in
    rw (inside, write_then, on) refl
  where
    gt_leb : (a b : ℕ) → b < a → leb a b ≡ false
    gt_leb a b h = ground arith

write_then-last :
    (capacity size : ℕ) (out bytes : List ℕ) (continue : List ℕ → Option (List ℕ))
    → length (out ++ bytes) ≤ capacity
    → 0 < size
    → size < 2 ^ 32
    → size ≤ length (out ++ bytes) + 1
    → write_then capacity size out bytes continue ≡ terminate capacity (out ++ bytes)
write_then-last capacity size out bytes continue fits positive small full =
    let inside = le→ltb capacity (length (out ++ bytes)) fits in
    let on : leb ((size + 2 ^ 32 - 1) % 2 ^ 32) (length (out ++ bytes)) ≡ true =
      le_leb ((size + 2 ^ 32 - 1) % 2 ^ 32) (length (out ++ bytes))
        (omega (arith, positive, small, full)) in
    rw (inside, write_then, on) refl
  where
    le_leb : (a b : ℕ) → a ≤ b → leb a b ≡ true
    le_leb a b h = ground arith

-- With room for `left` bytes more than there are.
sprintf_loop-Plain :
    (size left : ℕ) (f rest : List ℕ) (args : List Argument) (out : List ℕ)
    → size < 2 ^ 32
    → Plain f
    → length out + suc left + 1 ≡ size
    → sprintf_loop size size false (f ++ (0 ∷ rest)) args out
      ≡ some (out ++ (take (suc left) f ++ (0 ∷ [])))
sprintf_loop-Plain size left [] rest args out small ok room =
    sprintf_loop-end size size rest args out ∙ terminate-room size out (omega (arith, room))
sprintf_loop-Plain size zero (c ∷ f) rest args out small (e, n, p, ok) room =
    let l = length-append out (c ∷ []) in
    let cont = sprintf_loop size size false (f ++ (0 ∷ rest)) args in
    sprintf_loop-plain size size c f rest args out e n p
    ∙ (write_then-last size size out (c ∷ []) cont (omega (arith, l, room)) (omega (arith, room))
          small (omega (arith, l, room))
        ∙ (terminate-room size (out ++ (c ∷ [])) (omega (arith, l, room))
            ∙ ap some (append_assoc out (c ∷ []) (0 ∷ []))))
sprintf_loop-Plain size (suc left) (c ∷ f) rest args out small (e, n, p, ok) room =
    let l = length-append out (c ∷ []) in
    let cont = sprintf_loop size size false (f ++ (0 ∷ rest)) args in
    sprintf_loop-plain size size c f rest args out e n p
    ∙ (write_then-more size size out (c ∷ []) cont (omega (arith, l, room)) (omega (arith, room))
          small (omega (arith, l, room))
        ∙ (sprintf_loop-Plain size left f rest args (out ++ (c ∷ [])) small ok
              (omega (arith, l, room))
            ∙ ap some (append_assoc out (c ∷ []) (take (suc left) f ++ (0 ∷ [])))))

-- A format without conversions and newlines, and a size of at least two bytes which are all there
-- are: sprintf writes as many bytes of the format as leave room for the terminator, and the
-- terminator.
pub sprintf-cuts :
    (size : ℕ) (f rest : List ℕ) (args : List Argument)
    → 2 ≤ size
    → size < 2 ^ 32
    → Plain f
    → sprintf size size (f ++ (0 ∷ rest)) args ≡ some (take (size - 1) f ++ (0 ∷ []))
unfolding sprintf sprintf_va
sprintf-cuts size f rest args big small ok =
    let e : suc (size - 2) ≡ size - 1 = omega (arith, big) in
    sprintf_loop-Plain size (size - 2) f rest args [] small ok (omega (arith, big))
    ∙ ap (λ k. some (take k f ++ (0 ∷ []))) e

string_at-NoZero : (s rest : List ℕ) → NoZero s → string_at (s ++ (0 ∷ rest)) ≡ some s
string_at-NoZero [] rest nz = refl
string_at-NoZero (c ∷ s) rest (e, nz) = rw (e, string_at, string_at-NoZero s rest nz) refl

-- With a format that begins with `%s`, a string argument that is longer than the buffer is written
-- behind its end, whatever the size that sprintf is given.
pub sprintf-overruns :
    (capacity size : ℕ) (s rest after : List ℕ) (args : List Argument)
    → NoZero s
    → capacity < length s
    → sprintf capacity size (b'%' ∷ b's' ∷ after) (text (s ++ (0 ∷ rest)) ∷ args) ≡ none
unfolding sprintf sprintf_va sprintf_loop
sprintf-overruns capacity size s rest after args nz long =
    let beyond = lt→ltb capacity (length s) long in
    let bytes : converted b's' (text (s ++ (0 ∷ rest)) ∷ args) ≡ some (s, args) =
      rw (string_at-NoZero s rest nz, converted) refl in
    rw (bytes, sprintf_loop) (rw (beyond, write_then) refl)
