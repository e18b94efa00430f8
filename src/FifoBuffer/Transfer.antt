-- ===== src/FifoBuffer/Transfer.antt =====
-- `fifobuffer_enqueue_from_other`: it moves bytes until one buffer is full or the other empty.
use asterisk.Base.{
  ℕ, zero, suc, ◌+◌, ◌-◌, ◌^◌, ◌<◌, ◌≡◌, ◌∙◌, sym, refl, ap, ap₂, arith, min, List, [], inl, inr,
  ◌⊎◌, ◌∷◌, ◌++◌, take, drop, ltb, Bool-cases, append-nil, append_assoc, ltb→lt, ltb→le, ◌==◌, pos,
  to_int32, to_int32-small, some,
}
use asterisk.FifoBuffer.{
  FifoBuffer, inc32, store_byte, drop_byte, first_byte, transfer_loop, fifobuffer_get_size,
  fifobuffer_enqueue_from_other,
}
use asterisk.FifoBuffer.Valid.{IsValid, store_byte-IsValid, drop_byte-IsValid}
use asterisk.FifoBuffer.Contents.{contents, contents-store_byte, contents-drop_byte}

abbrev pub room : FifoBuffer → ℕ
room f = f.capacity - f.used_bytes

-- Started at `f` and `g` with `i` bytes moved, the loop ended at `f'` and `g'`.
pub record Moved (f g : FifoBuffer) (i : ℕ) (out : ℕ × FifoBuffer × FifoBuffer) : Type 0 where
  pub count : out.0 ≡ i + min (room f) g.used_bytes
  pub target : contents out.1 ≡ contents f ++ take (room f) (contents g)
  pub source : contents out.2 ≡ drop (room f) (contents g)
  pub valid : IsValid out.1
  pub other_valid : IsValid out.2
  pub capacity : out.1.capacity ≡ f.capacity

no_bytes : (f : FifoBuffer) → f.used_bytes ≡ 0 → contents f ≡ []
no_bytes f e = rw e

step :
    {f g : FifoBuffer} {i : ℕ} {out : ℕ × FifoBuffer × FifoBuffer}
    → IsValid f
    → IsValid g
    → f.used_bytes < f.capacity
    → 0 < g.used_bytes
    → i + 1 < 2 ^ 32
    → Moved (store_byte f (first_byte g)) (drop_byte g) (inc32 i) out
    → Moved f g i out
step {f} {g} {i} v w h k b m =
    let e : room f ≡ suc (room (store_byte f (first_byte g))) = omega arith in
    let e' : inc32 i ≡ i + 1 = omega arith in
    record {
      count = omega (arith, m.count);
      target =
          m.target
          ∙ ap (λ l. l ++ take (room (store_byte f (first_byte g))) (contents (drop_byte g)))
              (contents-store_byte (first_byte g) v h)
          ∙ append_assoc (contents f) (first_byte g ∷ []) _
          ∙ ap₂ (λ n l. contents f ++ take n l) (sym e) (sym (contents-drop_byte w k));
      source = m.source ∙ ap₂ (λ n (l : List ℕ). drop n l) (sym e) (sym (contents-drop_byte w k));
      valid = m.valid;
      other_valid = m.other_valid;
      capacity = m.capacity;
    }

done :
    {f g : FifoBuffer} (i : ℕ)
    → IsValid f
    → IsValid g
    → ((room f ≡ 0) ⊎ (g.used_bytes ≡ 0))
    → Moved f g i (i, f, g)
done {f} {g} i v w (inl e) = record {
  count = omega arith;
  target = rw (e, append-nil);
  source = rw e;
  valid = v;
  other_valid = w;
  capacity = refl;
}
done {f} {g} i v w (inr e) = record {
  count = omega arith;
  target = rw (no_bytes g e) (go (room f));
  source = rw (no_bytes g e) (stay (room f));
  valid = v;
  other_valid = w;
  capacity = refl;
}
  where
    go : (n : ℕ) → contents f ≡ contents f ++ take {A = ℕ} n []
    go zero = sym (append-nil (contents f))
    go (suc n) = sym (append-nil (contents f))

    stay : (n : ℕ) → [] ≡ drop {A = ℕ} n []
    stay zero = refl
    stay (suc n) = refl

-- With more fuel than bytes in `g` the loop ends.
transfer_loop-Moved :
    (fuel : ℕ) (f g : FifoBuffer) (i : ℕ)
    → IsValid f
    → IsValid g
    → i + room f < 2 ^ 31
    → g.used_bytes < fuel
    → (out : ℕ × FifoBuffer × FifoBuffer) × (transfer_loop fuel f g i ≡ some out) × Moved f g i out
unfolding transfer_loop
transfer_loop-Moved zero f g i v w b h = absurd (omega arith)
transfer_loop-Moved (suc fuel) f g i v w b h = elim (Bool-cases (ltb f.used_bytes f.capacity)) [
  | inr full ↦
      ((i, f, g), rw (full, transfer_loop), done i v w (inl (omega (arith, ltb→le _ _ full))))
  | inl free ↦ elim (Bool-cases (ltb 0 g.used_bytes)) [
    | inr empty ↦ (
      (i, f, g),
      rw (free, empty, transfer_loop),
      done i v w (inr (omega (arith, ltb→le _ _ empty))),
    )
    | inl more ↦
        let p : f.used_bytes < f.capacity = ltb→lt _ _ free in
        let q : 0 < g.used_bytes = ltb→lt _ _ more in
        let (out, eq, m) =
          transfer_loop-Moved fuel (store_byte f (first_byte g)) (drop_byte g) (inc32 i)
            (store_byte-IsValid _ v p) (drop_byte-IsValid w q) (omega arith) (omega arith) in
        (out, rw (free, more, transfer_loop) eq, step v w p q (omega arith) m)
  ]
]

-- `fifobuffer_enqueue_from_other` ends, returns how many bytes it moved, appends to the target the
-- oldest bytes of the other buffer, as many as fit, and leaves the others there; both stay valid.
pub fifobuffer_enqueue_from_other_lem :
    {f g : FifoBuffer}
    → IsValid f
    → IsValid g
    → (f' g' : FifoBuffer) × (fifobuffer_enqueue_from_other f g
        ≡ some (pos (min (room f) g.used_bytes), f', g'))
      × (contents f' ≡ contents f ++ take (room f) (contents g))
      × (contents g' ≡ drop (room f) (contents g))
      × IsValid f'
      × IsValid g'
unfolding fifobuffer_enqueue_from_other fifobuffer_get_size
fifobuffer_enqueue_from_other_lem {f} {g} v w = elim (Bool-cases (g.used_bytes == 0)) [
  | inl empty ↦
      let e : g.used_bytes ≡ 0 = ground arith in
      let m = done 0 v w (inr e) in
      (f, g, rw empty (ap (λ n. some (pos n, f, g)) (omega arith)), m.target, m.source, v, w)
  | inr more ↦
      let ((n, f', g'), eq, m) =
        transfer_loop-Moved (g.used_bytes + 1) f g 0 v w (omega arith) (omega arith) in
      (
        f',
        g',
        rw (more, eq)
            (ap (λ r. some (r, f', g'))
              (ap to_int32 m.count ∙ to_int32-small _ (omega arith) ∙ ap pos (omega arith))),
        m.target,
        m.source,
        m.valid,
        m.other_valid,
      )
]
