-- ===== src/FifoBuffer.antt =====
-- kernel/fifobuffer.c: the byte ring on which pipes and terminals stand. A function that changes
-- `*fifo_buffer` returns the new buffer beside its result.
pub mod Valid
pub mod Contents
pub mod Enqueue
pub mod Dequeue
pub mod Transfer
pub mod Fits
pub mod Script
mod Examples
use asterisk.Base.{
  ℕ, zero, suc, ◌+◌, ◌-◌, ◌%◌, ◌^◌, Bool, true, false, ◌&&◌, List, [], ◌∷◌, ℤ, pos, neg, to_int32,
  ltb, ◌==◌, if◌then◌else◌, get_or, set, replicate, length, Option, none, some,
}

-- `struct FifoBuffer`. Bytes are only moved, so a byte is any number.
pub record FifoBuffer : Type 0 where
  pub bytes : List ℕ
  pub capacity : ℕ
  pub used_bytes : ℕ
  pub read_index : ℕ
  pub write_index : ℕ

-- `x + 1` on `uint32_t`
abbrev pub inc32 : ℕ → ℕ
inc32 x = (x + 1) % 2 ^ 32

-- `x - 1` on `uint32_t`
abbrev pub dec32 : ℕ → ℕ
dec32 x = (x + 2 ^ 32 - 1) % 2 ^ 32

unfoldable pub fifobuffer_create : ℕ → FifoBuffer
fifobuffer_create capacity = record {
  bytes = replicate capacity 0;
  capacity = capacity;
  used_bytes = 0;
  read_index = 0;
  write_index = 0;
}

unfoldable pub fifobuffer_clear : FifoBuffer → FifoBuffer
fifobuffer_clear f = record f { used_bytes = 0; read_index = 0; write_index = 0 }

unfoldable pub fifobuffer_is_empty : FifoBuffer → Bool
fifobuffer_is_empty f = if 0 == f.used_bytes then true else false

unfoldable pub fifobuffer_get_size : FifoBuffer → ℕ
fifobuffer_get_size f = f.used_bytes

unfoldable pub fifobuffer_get_capacity : FifoBuffer → ℕ
fifobuffer_get_capacity f = f.capacity

-- `uint32_t` subtraction
unfoldable pub fifobuffer_get_free : FifoBuffer → ℕ
fifobuffer_get_free f = (f.capacity + 2 ^ 32 - f.used_bytes) % 2 ^ 32

-- The statements of the enqueue loop for one byte.
abbrev pub store_byte : FifoBuffer → ℕ → FifoBuffer
store_byte f x = record f {
  bytes = set f.bytes f.write_index x;
  used_bytes = inc32 f.used_bytes;
  write_index = inc32 f.write_index % f.capacity;
}

-- `used_bytes--; read_index++; read_index %= capacity`
abbrev pub drop_byte : FifoBuffer → FifoBuffer
drop_byte f = record f {
  used_bytes = dec32 f.used_bytes;
  read_index = inc32 f.read_index % f.capacity;
}

abbrev pub first_byte : FifoBuffer → ℕ
first_byte f = get_or f.bytes f.read_index 0

-- The loop from `i` on; the list is `data[i..size)`.
enqueue_loop : List ℕ → FifoBuffer → ℕ → ℕ × FifoBuffer
enqueue_loop [] f i = (i, f)
enqueue_loop (x ∷ rest) f i = elim (ltb f.used_bytes f.capacity) [
  | true ↦ enqueue_loop rest (store_byte f x) (inc32 i)
  | false ↦ (i, f)
]

-- The list is the `size` bytes at `data`.
unfoldable pub fifobuffer_enqueue : FifoBuffer → List ℕ → ℤ × FifoBuffer
unfolding enqueue_loop
fifobuffer_enqueue f xs =
    if length xs == 0 then (neg 1, f) else let (i, f') = enqueue_loop xs f 0 in (to_int32 i, f')

-- The loop with `n` bytes of `size` left to ask for, and what it writes from `data[i]` on.
dequeue_loop : ℕ → FifoBuffer → ℕ → ℕ × List ℕ × FifoBuffer
dequeue_loop zero f i = (i, [], f)
dequeue_loop (suc n) f i = elim (ltb 0 f.used_bytes) [
  | true ↦
      let (i', out, f') = dequeue_loop n (drop_byte f) (inc32 i) in (i', first_byte f ∷ out, f')
  | false ↦ (i, [], f)
]

-- The list is what is written at `data`.
unfoldable pub fifobuffer_dequeue : FifoBuffer → ℕ → ℤ × List ℕ × FifoBuffer
unfolding dequeue_loop
fifobuffer_dequeue f size =
    if size == 0
    then (neg 1, [], f)
    else if 0 == f.used_bytes
    then (pos 0, [], f)
    else let (i, out, f') = dequeue_loop size f 0 in (to_int32 i, out, f')

-- The loop on fuel: a round takes one byte from `other`, so `other->used_bytes` rounds do.
transfer_loop : ℕ → FifoBuffer → FifoBuffer → ℕ → Option (ℕ × FifoBuffer × FifoBuffer)
transfer_loop zero f other i = none
transfer_loop (suc fuel) f other i = elim (ltb f.used_bytes f.capacity && ltb 0 other.used_bytes) [
  | true ↦ transfer_loop fuel (store_byte f (first_byte other)) (drop_byte other) (inc32 i)
  | false ↦ some (i, f, other)
]

-- The two buffers are different objects, as `buffer_master_read` and `buffer_echo` are.
unfoldable pub fifobuffer_enqueue_from_other :
    FifoBuffer → FifoBuffer → Option (ℤ × FifoBuffer × FifoBuffer)
unfolding transfer_loop
fifobuffer_enqueue_from_other f other =
    if fifobuffer_get_size other == 0
    then some (pos 0, f, other)
    else elim (transfer_loop (other.used_bytes + 1) f other 0) [
      | none ↦ none
      | some (i, f', other') ↦ some (to_int32 i, f', other')
    ]
