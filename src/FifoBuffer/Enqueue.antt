-- ===== src/FifoBuffer/Enqueue.antt =====
-- `fifobuffer_enqueue`: how many bytes it takes, and which.
use asterisk.Base.{
  ℕ, zero, suc, ◌+◌, ◌-◌, ◌^◌, ◌<◌, ◌≡◌, ◌≢◌, ◌∙◌, sym, refl, ap, arith, min, List, [], inl, inr,
  ◌∷◌, ◌++◌, length, take, false, ltb, Bool-cases, append-nil, append_assoc, ltb→lt, ltb→le, ◌==◌,
  if◌then◌else◌, pos, to_int32, to_int32-small,
}
use asterisk.FifoBuffer.{
  FifoBuffer, inc32, store_byte, enqueue_loop, fifobuffer_enqueue, fifobuffer_get_free,
}
use asterisk.FifoBuffer.Valid.{IsValid, store_byte-IsValid, fifobuffer_get_free-sub}
use asterisk.FifoBuffer.Contents.{contents, contents-store_byte}

-- What the loop has done when it stops, started at `f` with `i` bytes taken.
pub record Took (f : FifoBuffer) (xs : List ℕ) (i : ℕ) (out : ℕ × FifoBuffer) : Type 0 where
  pub valid : IsValid out.1
  pub capacity : out.1.capacity ≡ f.capacity
  pub count : out.0 ≡ i + min (length xs) (f.capacity - f.used_bytes)
  pub bytes : contents out.1 ≡ contents f ++ take (f.capacity - f.used_bytes) xs

take-nil : (n : ℕ) → take {A = ℕ} n [] ≡ []
take-nil zero = refl
take-nil (suc n) = refl

enqueue_loop-Took :
    (xs : List ℕ) (f : FifoBuffer) (i : ℕ)
    → IsValid f
    → i + (f.capacity - f.used_bytes) < 2 ^ 31
    → Took f xs i (enqueue_loop xs f i)
unfolding enqueue_loop
enqueue_loop-Took [] f i v b = record {
  valid = v;
  capacity = refl;
  count = omega arith;
  bytes = rw (take-nil, append-nil);
}
enqueue_loop-Took (x ∷ xs) f i v b = elim (Bool-cases (ltb f.used_bytes f.capacity)) [
  | inl room ↦
      rw (room, enqueue_loop)
        (step (ltb→lt _ _ room) (
          enqueue_loop-Took xs (store_byte f x) (inc32 i) (store_byte-IsValid x v (ltb→lt _ _ room))
            (let lt : f.used_bytes < f.capacity = ltb→lt _ _ room in omega arith)))
  | inr full ↦
      let none_left : f.capacity - f.used_bytes ≡ 0 = omega (arith, ltb→le _ _ full) in
      rw (full, enqueue_loop)
        record {
          valid = v;
          capacity = refl;
          count = omega arith;
          bytes = rw (none_left, append-nil);
        }
]
  where
    step :
        {out : ℕ × FifoBuffer}
        → f.used_bytes < f.capacity
        → Took (store_byte f x) xs (inc32 i) out
        → Took f (x ∷ xs) i out
    step {out} h t =
        let e : f.capacity - f.used_bytes ≡ suc (f.capacity - inc32 f.used_bytes) = omega arith in
        let e' : inc32 i ≡ i + 1 = omega arith in
        record {
          valid = t.valid;
          capacity = t.capacity;
          count = omega (arith, t.count);
          bytes =
              t.bytes
              ∙ ap (λ l. l ++ take (f.capacity - inc32 f.used_bytes) xs) (contents-store_byte x v h)
              ∙ append_assoc (contents f) (x ∷ []) (take (f.capacity - inc32 f.used_bytes) xs)
              ∙ ap (λ n. contents f ++ take n (x ∷ xs)) (sym e);
        }

enqueue-cons :
    (f : FifoBuffer) (x : ℕ) (xs : List ℕ)
    → fifobuffer_enqueue f (x ∷ xs)
      ≡ (to_int32 (enqueue_loop (x ∷ xs) f 0).0, (enqueue_loop (x ∷ xs) f 0).1)
unfolding fifobuffer_enqueue
enqueue-cons f x xs = let e : (suc (length xs) == 0) ≡ false = ground arith in rw (e, if◌then◌else◌)

-- `fifobuffer_enqueue` of at least one byte takes as many as fit, appends exactly those, in order,
-- returns their number and keeps the buffer valid.
pub fifobuffer_enqueue_lem :
    {f : FifoBuffer} (xs : List ℕ)
    → IsValid f
    → xs ≢ []
    → let (n, f') = fifobuffer_enqueue f xs in
      (n ≡ pos (min (length xs) (fifobuffer_get_free f)))
      × (contents f' ≡ contents f ++ take (fifobuffer_get_free f) xs)
      × IsValid f'
      × (f'.capacity ≡ f.capacity)
fifobuffer_enqueue_lem [] v ne = absurd (ne refl)
fifobuffer_enqueue_lem {f} (x ∷ xs) v ne =
    let t = enqueue_loop-Took (x ∷ xs) f 0 v (omega arith) in
    let free = fifobuffer_get_free-sub v in
    rw enqueue-cons (
      ap to_int32 t.count ∙ to_int32-small _ (omega arith) ∙ ap pos (omega (arith, free)),
      t.bytes ∙ ap (λ n. contents f ++ take n (x ∷ xs)) (sym free),
      t.valid,
      t.capacity,
    )
