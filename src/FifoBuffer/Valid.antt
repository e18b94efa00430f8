-- ===== src/FifoBuffer/Valid.antt =====
-- The representation invariant of `FifoBuffer`, and the operations that move one byte.
use asterisk.Base.{
  ℕ, ◌+◌, ◌-◌, ◌%◌, ◌^◌, ◌≤◌, ◌<◌, ◌≡◌, ◌∙◌, sym, arith, length, length-set, length-replicate,
}
use asterisk.FifoBuffer.{
  FifoBuffer, inc32, dec32, store_byte, drop_byte, fifobuffer_create, fifobuffer_clear,
  fifobuffer_get_free,
}
use native.Mathlib.Nat.{mod-add-mod, mod-eq_of_lt}

-- The write index stands `used_bytes` after the read index, round the array.
pub record IsValid (f : FifoBuffer) : Type 0 where
  pub storage : length f.bytes ≡ f.capacity
  pub nonempty : 0 < f.capacity
  pub small : f.capacity < 2 ^ 31
  pub used_in : f.used_bytes ≤ f.capacity
  pub read_in : f.read_index < f.capacity
  pub write_at : f.write_index ≡ (f.read_index + f.used_bytes) % f.capacity

pub fifobuffer_create-IsValid : (c : ℕ) → 0 < c → c < 2 ^ 31 → IsValid (fifobuffer_create c)
unfolding fifobuffer_create
fifobuffer_create-IsValid c p s = record {
  storage = length-replicate c 0;
  nonempty = p;
  small = s;
  used_in = omega arith;
  read_in = p;
  write_at = omega (arith, mod-eq_of_lt p);
}

pub fifobuffer_clear-IsValid : {f : FifoBuffer} → IsValid f → IsValid (fifobuffer_clear f)
unfolding fifobuffer_clear
fifobuffer_clear-IsValid v = record {
  storage = v.storage;
  nonempty = v.nonempty;
  small = v.small;
  used_in = omega arith;
  read_in = v.nonempty;
  write_at = omega (arith, mod-eq_of_lt v.nonempty);
}

-- The subtraction of `fifobuffer_get_free` does not wrap.
pub fifobuffer_get_free-sub :
    {f : FifoBuffer} → IsValid f → fifobuffer_get_free f ≡ f.capacity - f.used_bytes
unfolding fifobuffer_get_free
fifobuffer_get_free-sub v = omega arith

pub write_in : {f : FifoBuffer} → IsValid f → f.write_index < f.capacity
write_in v = omega arith

-- One step of the write index, and one of the read index.
inc-write :
    (r u w c : ℕ) → w ≡ (r + u) % c → w < 2 ^ 31 → u < 2 ^ 31 → inc32 w % c ≡ (r + inc32 u) % c
inc-write r u w c e hw hu =
    let e₁ : inc32 w ≡ (r + u) % c + 1 = omega arith in
    let e₂ : r + inc32 u ≡ r + u + 1 = omega arith in rw (e₁, e₂) (mod-add-mod (r + u) c 1)

inc-read : (r u c : ℕ) → r < 2 ^ 31 → 0 < u → u < 2 ^ 32 → (r + u) % c ≡ (inc32 r % c + dec32 u) % c
inc-read r u c hr p hu =
    let e₁ : inc32 r ≡ r + 1 = omega arith in
    let e₂ : r + u ≡ r + 1 + dec32 u = omega arith in
    rw (e₁, e₂) (sym (mod-add-mod (r + 1) c (dec32 u)))

pub store_byte-IsValid :
    {f : FifoBuffer} (x : ℕ) → IsValid f → f.used_bytes < f.capacity → IsValid (store_byte f x)
store_byte-IsValid {f} x v h = record {
  storage = omega (arith, length-set f.bytes f.write_index x);
  nonempty = v.nonempty;
  small = v.small;
  used_in = omega arith;
  read_in = v.read_in;
  write_at =
      inc-write f.read_index f.used_bytes f.write_index f.capacity v.write_at (omega arith)
        (omega arith);
}

pub drop_byte-IsValid : {f : FifoBuffer} → IsValid f → 0 < f.used_bytes → IsValid (drop_byte f)
drop_byte-IsValid {f} v h = record {
  storage = v.storage;
  nonempty = v.nonempty;
  small = v.small;
  used_in = omega arith;
  read_in = omega arith;
  write_at =
      v.write_at ∙ inc-read f.read_index f.used_bytes f.capacity (omega arith) h (omega arith);
}
