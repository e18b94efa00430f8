-- ===== src/FifoBuffer/Fits.antt =====
-- Consequences of `fifobuffer_enqueue_lem` for the clients of a buffer.
use asterisk.Base.{ℕ, ◌≤◌, ◌≡◌, ◌∙◌, ap, arith, List, [], ◌∷◌, ◌++◌, ℤ, pos, length, take-all}
use asterisk.FifoBuffer.{FifoBuffer, fifobuffer_enqueue, fifobuffer_get_free}
use asterisk.FifoBuffer.Valid.{IsValid}
use asterisk.FifoBuffer.Contents.{contents}
use asterisk.FifoBuffer.Enqueue.{fifobuffer_enqueue_lem}

pub fifobuffer_enqueue-IsValid :
    {f : FifoBuffer} (xs : List ℕ) → IsValid f → IsValid (fifobuffer_enqueue f xs).1
unfolding fifobuffer_enqueue
fifobuffer_enqueue-IsValid [] v = v
fifobuffer_enqueue-IsValid (x ∷ xs) v = (fifobuffer_enqueue_lem (x ∷ xs) v (λ e. cc)).2

-- What `fifobuffer_enqueue` of bytes that fit has done.
pub record Enqueued (f : FifoBuffer) (xs : List ℕ) (out : ℤ × FifoBuffer) : Type 0 where
  pub count : out.0 ≡ pos (length xs)
  pub held : contents out.1 ≡ contents f ++ xs
  pub valid : IsValid out.1
  pub capacity : out.1.capacity ≡ f.capacity

pub enqueue-Enqueued :
    {f : FifoBuffer} (x : ℕ) (xs : List ℕ)
    → IsValid f
    → length (x ∷ xs) ≤ fifobuffer_get_free f
    → Enqueued f (x ∷ xs) (fifobuffer_enqueue f (x ∷ xs))
enqueue-Enqueued {f} x xs v h =
    let (count, held, v', cap) = fifobuffer_enqueue_lem (x ∷ xs) v (λ e. cc) in
    record {
      count = count ∙ ap pos (omega arith);
      held = held ∙ ap (λ l. contents f ++ l) (take-all (fifobuffer_get_free f) (x ∷ xs) h);
      valid = v';
      capacity = cap;
    }
