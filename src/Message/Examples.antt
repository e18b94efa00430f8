-- ===== src/Message/Examples.antt =====
-- The theorem at a queue of two messages that is filled and emptied, and the same run of the code.
use asterisk.Base.{ℕ, ◌*◌, ◌≡◌, refl, arith, replicate, List, [], ◌∷◌, pos, neg}
use asterisk.FifoBuffer.{FifoBuffer}
use asterisk.Message.{AsteriskMessage}
use asterisk.Message.Queue.{Holds, all_bytes}
use asterisk.Message.Mailbox.{
  Call, send, next, count, received, counted, run, mailbox_run, run-mailbox_run,
}

abbrev two_messages_free : FifoBuffer
two_messages_free = record {
  bytes = replicate 32 0;
  capacity = 32;
  used_bytes = 0;
  read_index = 0;
  write_index = 0;
}

abbrev message : ℕ → AsteriskMessage
message n = record {
  message_type = n;
  parameter1 = 1000 * n;
  parameter2 = 4000000000;
  parameter3 = 0;
}

two_messages_free-Holds : Holds two_messages_free []
unfolding all_bytes
two_messages_free-Holds = record { valid = omega arith; bytes = refl; wide = tt; whole = refl }

-- Three messages are sent, the third to a full queue, and the pointer holds `message 9`.
abbrev calls : List Call
calls =
    send (message 1)
    ∷ send (message 2)
    ∷ send (message 3)
    ∷ next (message 9)
    ∷ count
    ∷ next (message 9)
    ∷ next (message 9)
    ∷ []

run-mailbox_run_example : run two_messages_free calls ≡ mailbox_run 2 [] calls
run-mailbox_run_example =
    run-mailbox_run calls two_messages_free-Holds (omega arith, (omega arith, (omega arith, tt)))

mailbox_replies :
    mailbox_run 2 [] calls
    ≡ received (pos 1) (message 1)
      ∷ counted 1
      ∷ received (pos 0) (message 2)
      ∷ received (neg 1) (message 9)
      ∷ []
unfolding mailbox_run
mailbox_replies = refl
