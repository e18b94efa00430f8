-- ===== src/Message.antt =====
-- kernel/message.c: the message queue of a thread, a byte buffer that holds whole messages.
pub mod Words
pub mod Queue
pub mod Mailbox
mod Examples
use asterisk.Base.{
  ℕ, zero, suc, ◌+◌, ◌-◌, ◌*◌, ◌/◌, ◌%◌, List, [], ◌∷◌, ◌++◌, ℤ, neg, to_int32, ltb, if◌then◌else◌,
  get_or, drop, length,
}
use asterisk.FifoBuffer.{FifoBuffer, fifobuffer_get_size, fifobuffer_enqueue, fifobuffer_dequeue}

pub record AsteriskMessage : Type 0 where
  pub message_type : ℕ
  pub parameter1 : ℕ
  pub parameter2 : ℕ
  pub parameter3 : ℕ

-- `sizeof(AsteriskMessage)`
abbrev pub message_size : ℕ
message_size = 16

-- A `uint32_t` in memory, its low byte first, and read back from position `i`.
abbrev pub word_bytes : ℕ → List ℕ
word_bytes n = (n % 256) ∷ (n / 256 % 256) ∷ (n / 65536 % 256) ∷ (n / 16777216 % 256) ∷ []

abbrev pub word_at : List ℕ → ℕ → ℕ
word_at bytes i =
    get_or bytes i 0
    + (256 * get_or bytes (i + 1) 0
        + (65536 * get_or bytes (i + 2) 0 + 16777216 * get_or bytes (i + 3) 0))

-- `(uint8_t*) message` as the bytes there, and the message that they make.
unfoldable pub message_bytes : AsteriskMessage → List ℕ
message_bytes m =
    word_bytes m.message_type
    ++ word_bytes m.parameter1
    ++ word_bytes m.parameter2
    ++ word_bytes m.parameter3

unfoldable pub message_at : List ℕ → AsteriskMessage
message_at bytes = record {
  message_type = word_at bytes 0;
  parameter1 = word_at bytes 4;
  parameter2 = word_at bytes 8;
  parameter3 = word_at bytes 12;
}

-- A `Thread` is its `message_queue`; each function holds the lock from start to end.
unfoldable pub message_send : FifoBuffer → AsteriskMessage → FifoBuffer
message_send queue message = (fifobuffer_enqueue queue (message_bytes message)).1

unfoldable pub message_get_queue_count : FifoBuffer → ℕ
message_get_queue_count queue = fifobuffer_get_size queue / message_size

-- `message` is what is at the pointer before; the result has what is there after.
unfoldable pub message_get_next : FifoBuffer → AsteriskMessage → ℤ × AsteriskMessage × FifoBuffer
message_get_next queue message =
    let result = fifobuffer_get_size queue / message_size in
    if ltb 0 result
    then (let (_, out, queue') = fifobuffer_dequeue queue message_size in
        (
          to_int32 (result - 1),
          message_at (out ++ drop (length out) (message_bytes message)),
          queue',
        ))
    else (neg 1, message, queue)
