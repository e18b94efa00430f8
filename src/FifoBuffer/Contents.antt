-- ===== src/FifoBuffer/Contents.antt =====
-- The bytes that a `FifoBuffer` holds, oldest first, and what one stored or dropped byte does.
use asterisk.Base.{
  ℕ, zero, suc, ◌+◌, ◌-◌, ◌%◌, ◌<◌, ◌≡◌, ◌≢◌, ◌∙◌, sym, refl, ap, ap₂, arith, List, [], ◌∷◌, ◌++◌,
  length, get_or, set, get_or-set_self, get_or-set_ne,
}
use asterisk.FifoBuffer.{FifoBuffer, inc32, dec32, store_byte, drop_byte, first_byte}
use asterisk.FifoBuffer.Valid.{IsValid}
use native.Mathlib.Decide.{dec_lt}
use native.Mathlib.Nat.{mod-add-mod, mod-eq_of_lt, mod-eq-sub-mod, mod-lt, add-zero}

-- The `n` bytes from position `p` on, where position `p` stands at index `p % c`.
abbrev pub span : List ℕ → ℕ → ℕ → ℕ → List ℕ
span bytes c p zero = []
span bytes c p (suc n) = get_or bytes (p % c) 0 ∷ span bytes c (p + 1) n

abbrev pub contents : FifoBuffer → List ℕ
contents f = span f.bytes f.capacity f.read_index f.used_bytes

length-span : (bytes : List ℕ) (c p n : ℕ) → length (span bytes c p n) ≡ n
length-span bytes c p zero = refl
length-span bytes c p (suc n) = ap suc (length-span bytes c (p + 1) n)

pub length-contents : (f : FifoBuffer) → length (contents f) ≡ f.used_bytes
length-contents f = length-span f.bytes f.capacity f.read_index f.used_bytes

-- Positions count modulo the capacity.
span-mod : (bytes : List ℕ) (c p q n : ℕ) → p % c ≡ q % c → span bytes c p n ≡ span bytes c q n
span-mod bytes c p q zero e = refl
span-mod bytes c p q (suc n) e = ap₂ ◌∷◌ (ap (λ i. get_or bytes i 0) e) (
    span-mod bytes c (p + 1) (q + 1) n
      (sym (mod-add-mod p c 1) ∙ ap (λ i. (i + 1) % c) e ∙ mod-add-mod q c 1))

-- Fewer than `c` steps do not come back to the same index.
step-ne : (c p k : ℕ) → 0 < k → k < c → p % c ≢ (p + k) % c
step-ne c p k h₀ h e = elim (dec_lt (p % c + k) c) [
  | yes low ↦ omega (arith, mod-add-mod p c k, mod-eq_of_lt low)
  | no high ↦ omega (
    arith,
    mod-add-mod p c k,
    mod-eq-sub-mod {n = p % c + k} {m = c} (omega arith),
    mod-eq_of_lt {n = p % c + k - c} {m = c} (omega arith),
  )
]

-- A byte written `n` positions on lengthens the span by that byte.
span-store :
    (bytes : List ℕ) (c p n i x : ℕ)
    → length bytes ≡ c
    → n < c
    → i ≡ (p + n) % c
    → span (set bytes i x) c p (suc n) ≡ span bytes c p n ++ (x ∷ [])
span-store bytes c p zero i x s h e =
    let e' : i ≡ p % c = e ∙ ap (λ k. k % c) (add-zero p) in
    rw (← e') (ap (λ y. y ∷ []) (get_or-set_self bytes i x 0 (omega arith)))
span-store bytes c p (suc n) i x s h e =
    ap₂ ◌∷◌
      (get_or-set_ne bytes i (p % c) x 0 (λ q. step-ne c p (suc n) (omega arith) h (sym q ∙ e)))
      (span-store bytes c (p + 1) n i x s (omega arith) (e ∙ ap (λ k. k % c) (omega arith)))

pub contents-store_byte :
    {f : FifoBuffer} (x : ℕ)
    → IsValid f
    → f.used_bytes < f.capacity
    → contents (store_byte f x) ≡ contents f ++ (x ∷ [])
contents-store_byte {f} x v h =
    let e : inc32 f.used_bytes ≡ suc f.used_bytes = omega arith in
    rw e (
      span-store f.bytes f.capacity f.read_index f.used_bytes f.write_index x v.storage h
        v.write_at)

pub contents-drop_byte :
    {f : FifoBuffer}
    → IsValid f
    → 0 < f.used_bytes
    → contents f ≡ first_byte f ∷ contents (drop_byte f)
contents-drop_byte {f} v h =
    ap (span f.bytes f.capacity f.read_index) used
    ∙ ap₂ ◌∷◌ (ap (λ i. get_or f.bytes i 0) (mod-eq_of_lt v.read_in))
        (span-mod f.bytes f.capacity (f.read_index + 1) (inc32 f.read_index % f.capacity) _ shift)
  where
    used : f.used_bytes ≡ suc (dec32 f.used_bytes)
    used = omega arith

    shift : (f.read_index + 1) % f.capacity ≡ inc32 f.read_index % f.capacity % f.capacity
    shift =
        let e : inc32 f.read_index ≡ f.read_index + 1 = omega arith in
        rw e (sym (mod-eq_of_lt (mod-lt (f.read_index + 1) v.nonempty)))
