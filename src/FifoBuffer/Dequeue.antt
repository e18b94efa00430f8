-- ===== src/FifoBuffer/Dequeue.antt =====
-- `fifobuffer_dequeue`: which bytes it hands over, and what it leaves.
use asterisk.Base.{
  ℕ, zero, suc, ◌+◌, ◌^◌, ◌<◌, ◌≡◌, ◌∙◌, refl, ap, arith, min, List, [], inl, inr, ◌∷◌, length,
  take, drop, false, ltb, Bool-cases, ltb→lt, ltb→le, ◌==◌, if◌then◌else◌, pos, to_int32,
  to_int32-small, length-take,
}
use asterisk.FifoBuffer.{FifoBuffer, inc32, drop_byte, first_byte, dequeue_loop, fifobuffer_dequeue}
use asterisk.FifoBuffer.Valid.{IsValid, drop_byte-IsValid}
use asterisk.FifoBuffer.Contents.{contents, length-contents, contents-drop_byte}

-- What the loop has done when it stops, asked for `n` bytes at `f` with `i` handed over.
record Gave (f : FifoBuffer) (n i : ℕ) (out : ℕ × List ℕ × FifoBuffer) : Type 0 where
  valid : IsValid out.2
  capacity : out.2.capacity ≡ f.capacity
  count : out.0 ≡ i + min n f.used_bytes
  bytes : out.1 ≡ take n (contents f)
  rest : contents out.2 ≡ drop n (contents f)

no_bytes : (f : FifoBuffer) → f.used_bytes ≡ 0 → contents f ≡ []
no_bytes f e = go (contents f) (length-contents f ∙ e)
  where
    go : (l : List ℕ) → length l ≡ 0 → l ≡ []
    go [] h = refl
    go (x ∷ l) h = absurd (omega arith)

dequeue_loop-Gave :
    (n : ℕ) (f : FifoBuffer) (i : ℕ)
    → IsValid f
    → i + f.used_bytes < 2 ^ 31
    → Gave f n i (dequeue_loop n f i)
unfolding dequeue_loop
dequeue_loop-Gave zero f i v b = record {
  valid = v;
  capacity = refl;
  count = omega arith;
  bytes = refl;
  rest = refl;
}
dequeue_loop-Gave (suc n) f i v b = elim (Bool-cases (ltb 0 f.used_bytes)) [
  | inl some_left ↦
      let h : 0 < f.used_bytes = ltb→lt _ _ some_left in
      rw (some_left, dequeue_loop)
        (step h (dequeue_loop-Gave n (drop_byte f) (inc32 i) (drop_byte-IsValid v h) (omega arith)))
  | inr empty ↦
      let e : f.used_bytes ≡ 0 = omega (arith, ltb→le _ _ empty) in
      rw (empty, dequeue_loop)
        record {
          valid = v;
          capacity = refl;
          count = omega arith;
          bytes = rw (no_bytes f e);
          rest = rw (no_bytes f e);
        }
]
  where
    step :
        {out : ℕ × List ℕ × FifoBuffer}
        → 0 < f.used_bytes
        → Gave (drop_byte f) n (inc32 i) out
        → Gave f (suc n) i (out.0, first_byte f ∷ out.1, out.2)
    step h g =
        let e : inc32 i ≡ i + 1 = omega arith in
        record {
          valid = g.valid;
          capacity = g.capacity;
          count = omega (arith, g.count);
          bytes = rw (contents-drop_byte v h) (ap (λ l. first_byte f ∷ l) g.bytes);
          rest = rw (contents-drop_byte v h) g.rest;
        }

dequeue-nonempty :
    (f : FifoBuffer) (n : ℕ)
    → 0 < n
    → 0 < f.used_bytes
    → fifobuffer_dequeue f n
      ≡ (to_int32 (dequeue_loop n f 0).0, (dequeue_loop n f 0).1, (dequeue_loop n f 0).2)
unfolding fifobuffer_dequeue
dequeue-nonempty f n p q =
    let e : (n == 0) ≡ false = ground arith in
    let e' : (0 == f.used_bytes) ≡ false = ground arith in rw (e, e', if◌then◌else◌)

dequeue-empty :
    (f : FifoBuffer) (n : ℕ) → 0 < n → f.used_bytes ≡ 0 → fifobuffer_dequeue f n ≡ (pos 0, [], f)
unfolding fifobuffer_dequeue
dequeue-empty f n p q = ground arith

-- `fifobuffer_dequeue` of at least one byte hands over the oldest bytes, as many as there are up to
-- the number asked for, returns their number, leaves the rest in order and keeps the buffer valid.
pub fifobuffer_dequeue_lem :
    {f : FifoBuffer} (n : ℕ)
    → IsValid f
    → 0 < n
    → let (r, out, f') = fifobuffer_dequeue f n in
      (r ≡ pos (length out))
      × (out ≡ take n (contents f))
      × (contents f' ≡ drop n (contents f))
      × IsValid f'
      × (f'.capacity ≡ f.capacity)
fifobuffer_dequeue_lem {f} n v p = elim (Bool-cases (ltb 0 f.used_bytes)) [
  | inl some_left ↦
      let h : 0 < f.used_bytes = ltb→lt _ _ some_left in
      let g = dequeue_loop-Gave n f 0 v (omega arith) in
      rw (dequeue-nonempty f n p h) (
        ap to_int32 g.count
            ∙ to_int32-small _ (omega arith)
            ∙ ap pos (
                omega (
                  arith,
                  ap (length {A = ℕ}) g.bytes,
                  length-take n (contents f),
                  length-contents f,
                )),
        g.bytes,
        g.rest,
        g.valid,
        g.capacity,
      )
  | inr empty ↦
      let e : f.used_bytes ≡ 0 = omega (arith, ltb→le _ _ empty) in
      rw (dequeue-empty f n p e)
        (refl, rw (no_bytes f e, take-nil n), rw (no_bytes f e, drop-nil n), v, refl)
]
  where
    take-nil : (n : ℕ) → take {A = ℕ} n [] ≡ []
    take-nil zero = refl
    take-nil (suc n) = refl

    drop-nil : (n : ℕ) → drop {A = ℕ} n [] ≡ []
    drop-nil zero = refl
    drop-nil (suc n) = refl
