-- ===== src/Message/Words.antt =====
-- A message survives its way through memory.
use asterisk.Base.{ℕ, ◌+◌, ◌*◌, ◌/◌, ◌%◌, ◌^◌, ◌<◌, ◌≡◌, arith, length}
use asterisk.Message.{AsteriskMessage, message_bytes, message_at, message_size}

-- The fields are 32 bits wide.
pub record IsWide (m : AsteriskMessage) : Type 0 where
  pub message_type : m.message_type < 2 ^ 32
  pub parameter1 : m.parameter1 < 2 ^ 32
  pub parameter2 : m.parameter2 < 2 ^ 32
  pub parameter3 : m.parameter3 < 2 ^ 32

word_round :
    (n : ℕ)
    → n < 2 ^ 32
    → n % 256
        + (256 * (n / 256 % 256) + (65536 * (n / 65536 % 256) + 16777216 * (n / 16777216 % 256)))
      ≡ n
word_round n h = omega arith

pub message_at-message_bytes : (m : AsteriskMessage) → IsWide m → message_at (message_bytes m) ≡ m
unfolding message_at message_bytes
message_at-message_bytes m w = λ i. record {
  message_type = word_round m.message_type w.message_type i;
  parameter1 = word_round m.parameter1 w.parameter1 i;
  parameter2 = word_round m.parameter2 w.parameter2 i;
  parameter3 = word_round m.parameter3 w.parameter3 i;
}

pub length-message_bytes : (m : AsteriskMessage) → length (message_bytes m) ≡ message_size
unfolding message_bytes
length-message_bytes m = omega arith
