-- ===== src/FifoBuffer/Script.antt =====
-- A `FifoBuffer` seen through its calls: a bounded queue of bytes.
use asterisk.Base.{
  ℕ, zero, suc, ◌-◌, ◌≤◌, ◌≡◌, ◌≢◌, ◌∙◌, sym, refl, ap, ap₂, arith, min, List, [], ◌∷◌, ◌++◌,
  length, take, drop, ℤ, pos, neg, take-all, drop-all,
}
use asterisk.FifoBuffer.{
  FifoBuffer, fifobuffer_enqueue, fifobuffer_dequeue, fifobuffer_clear, fifobuffer_get_size,
  fifobuffer_get_free,
}
use asterisk.FifoBuffer.Valid.{IsValid, fifobuffer_clear-IsValid, fifobuffer_get_free-sub}
use asterisk.FifoBuffer.Contents.{contents, length-contents}
use asterisk.FifoBuffer.Enqueue.{fifobuffer_enqueue_lem}
use asterisk.FifoBuffer.Dequeue.{fifobuffer_dequeue_lem}

pub data Call : Type 0 where
  put : List ℕ → Call
  get : ℕ → Call
  clear size : Call

-- the return value, and the bytes written for the caller
abbrev pub Reply : Type 0
Reply = ℤ × List ℕ

unfoldable pub run : FifoBuffer → List Call → List Reply
run f [] = []
run f (put xs ∷ calls) = let (r, f') = fifobuffer_enqueue f xs in (r, []) ∷ run f' calls
run f (get n ∷ calls) = let (r, out, f') = fifobuffer_dequeue f n in (r, out) ∷ run f' calls
run f (clear ∷ calls) = (pos 0, []) ∷ run (fifobuffer_clear f) calls
run f (size ∷ calls) = (pos (fifobuffer_get_size f), []) ∷ run f calls

-- The same calls on a queue of at most `cap` bytes.
module _ (cap : ℕ) where
  unfoldable pub queue_put : List ℕ → List ℕ → ℤ × List ℕ
  queue_put q [] = (neg 1, q)
  queue_put q (x ∷ xs) =
      (pos (min (length (x ∷ xs)) (cap - length q)), q ++ take (cap - length q) (x ∷ xs))

  unfoldable pub queue_get : List ℕ → ℕ → ℤ × List ℕ × List ℕ
  queue_get q zero = (neg 1, [], q)
  queue_get q (suc n) = (pos (length (take (suc n) q)), take (suc n) q, drop (suc n) q)

  unfoldable pub queue_run : List ℕ → List Call → List Reply
  unfolding queue_put queue_get
  queue_run q [] = []
  queue_run q (put xs ∷ calls) = let (r, q') = queue_put q xs in (r, []) ∷ queue_run q' calls
  queue_run q (get n ∷ calls) = let (r, out, q') = queue_get q n in (r, out) ∷ queue_run q' calls
  queue_run q (clear ∷ calls) = (pos 0, []) ∷ queue_run [] calls
  queue_run q (size ∷ calls) = (pos (length q), []) ∷ queue_run q calls

clear-refines :
    (f : FifoBuffer)
    → (contents (fifobuffer_clear f) ≡ []) × ((fifobuffer_clear f).capacity ≡ f.capacity)
unfolding fifobuffer_clear
clear-refines f = (refl, refl)

size-length : (f : FifoBuffer) → fifobuffer_get_size f ≡ length (contents f)
unfolding fifobuffer_get_size
size-length f = sym (length-contents f)

put-nil : (f : FifoBuffer) → fifobuffer_enqueue f [] ≡ (neg 1, f)
unfolding fifobuffer_enqueue
put-nil f = refl

get-zero : (f : FifoBuffer) → fifobuffer_dequeue f 0 ≡ (neg 1, [], f)
unfolding fifobuffer_dequeue
get-zero f = refl

cons-ne : (x : ℕ) (xs : List ℕ) → x ∷ xs ≢ []
cons-ne x xs e = cc

-- No sequence of calls tells a valid buffer from the bounded queue of the bytes that it holds.
pub run-queue_run :
    (calls : List Call) {f : FifoBuffer}
    → IsValid f
    → run f calls ≡ queue_run f.capacity (contents f) calls
unfolding run queue_run
run-queue_run [] v = refl
run-queue_run (put [] ∷ calls) v = rw put-nil (ap (λ l. (neg 1, []) ∷ l) (run-queue_run calls v))
run-queue_run (put (x ∷ xs) ∷ calls) {f} v =
    let (count, held, v', cap) = fifobuffer_enqueue_lem (x ∷ xs) v (cons-ne x xs) in
    let free : fifobuffer_get_free f ≡ f.capacity - length (contents f) =
      fifobuffer_get_free-sub v ∙ ap (λ n. f.capacity - n) (sym (length-contents f)) in
    ap₂ (λ r l. (r, []) ∷ l) (count ∙ ap (λ n. pos (min (length (x ∷ xs)) n)) free)
      (run-queue_run calls v'
        ∙ ap₂ (λ c q. queue_run c q calls) cap
            (held ∙ ap (λ n. contents f ++ take n (x ∷ xs)) free))
run-queue_run (get zero ∷ calls) v = rw get-zero (ap (λ l. (neg 1, []) ∷ l) (run-queue_run calls v))
run-queue_run (get (suc n) ∷ calls) {f} v =
    let (count, out, rest, v', cap) = fifobuffer_dequeue_lem (suc n) v (omega arith) in
    ap₂ ◌∷◌ (ap₂ (λ r (l : List ℕ). (r, l)) (count ∙ ap (λ l. pos (length {A = ℕ} l)) out) out)
      (run-queue_run calls v' ∙ ap₂ (λ c q. queue_run c q calls) cap rest)
run-queue_run (clear ∷ calls) {f} v =
    ap (λ l. (pos 0, []) ∷ l)
      (run-queue_run calls (fifobuffer_clear-IsValid v)
        ∙ ap₂ (λ c q. queue_run c q calls) (clear-refines f).1 (clear-refines f).0)
run-queue_run (size ∷ calls) {f} v =
    ap₂ (λ n l. (pos n, []) ∷ l) (size-length f) (run-queue_run calls v)

-- Bytes put into an empty valid buffer that has room for them come out as they went in.
pub dequeue-enqueue :
    {f : FifoBuffer} (x : ℕ) (xs : List ℕ)
    → IsValid f
    → f.used_bytes ≡ 0
    → length (x ∷ xs) ≤ f.capacity
    → let (r, out, f') = fifobuffer_dequeue (fifobuffer_enqueue f (x ∷ xs)).1 (length (x ∷ xs)) in
      (r ≡ pos (length (x ∷ xs))) × (out ≡ x ∷ xs) × (contents f' ≡ [])
dequeue-enqueue {f} x xs v e h =
    let (_, held, v', _) = fifobuffer_enqueue_lem (x ∷ xs) v (cons-ne x xs) in
    let (count, out, rest, _, _) = fifobuffer_dequeue_lem (length (x ∷ xs)) v' (omega arith) in
    let all : contents (fifobuffer_enqueue f (x ∷ xs)).1 ≡ x ∷ xs =
      held
      ∙ ap (λ l. l ++ take (fifobuffer_get_free f) (x ∷ xs))
          (no_bytes (contents f) (length-contents f ∙ e))
      ∙ take-all (fifobuffer_get_free f) (x ∷ xs) (omega (arith, fifobuffer_get_free-sub v)) in
    let same =
      out ∙ ap (take (length (x ∷ xs))) all ∙ take-all (length (x ∷ xs)) (x ∷ xs) (omega arith) in
    (
      count ∙ ap (λ l. pos (length {A = ℕ} l)) same,
      same,
      rest ∙ ap (drop (length (x ∷ xs))) all ∙ drop-all (length (x ∷ xs)) (x ∷ xs) (omega arith),
    )
  where
    no_bytes : (l : List ℕ) → length l ≡ 0 → l ≡ []
    no_bytes [] p = refl
    no_bytes (y ∷ l) p = absurd (omega arith)
