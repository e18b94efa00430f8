-- ===== src/Message/Mailbox.antt =====
-- A thread's queue seen through its calls: a bounded queue of messages.
use asterisk.Base.{ℕ, ◌/◌, ◌≡◌, ◌∙◌, refl, ap, ap₂, List, [], ◌∷◌, ℤ, pos, neg, length}
use asterisk.FifoBuffer.{FifoBuffer}
use asterisk.Message.{
  AsteriskMessage, message_size, message_send, message_get_queue_count, message_get_next,
}
use asterisk.Message.Words.{IsWide}
use asterisk.Message.Queue.{Holds, post, message_send-Holds, size-count, next-none, next-Received}

-- The calls; `next` has what is at the caller's pointer before.
pub data Call : Type 0 where
  send : AsteriskMessage → Call
  next : AsteriskMessage → Call
  count : Call

pub data Reply : Type 0 where
  received : ℤ → AsteriskMessage → Reply
  counted : ℕ → Reply

unfoldable pub run : FifoBuffer → List Call → List Reply
run f [] = []
run f (send m ∷ calls) = run (message_send f m) calls
run f (next old ∷ calls) = let (r, m, f') = message_get_next f old in received r m ∷ run f' calls
run f (count ∷ calls) = counted (message_get_queue_count f) ∷ run f calls

-- The same calls on a queue of at most `capacity` messages.
unfoldable pub mailbox_run : ℕ → List AsteriskMessage → List Call → List Reply
mailbox_run capacity ms [] = []
mailbox_run capacity ms (send m ∷ calls) = mailbox_run capacity (post capacity ms m) calls
mailbox_run capacity [] (next old ∷ calls) = received (neg 1) old ∷ mailbox_run capacity [] calls
mailbox_run capacity (m ∷ ms) (next old ∷ calls) =
    received (pos (length ms)) m ∷ mailbox_run capacity ms calls
mailbox_run capacity ms (count ∷ calls) = counted (length ms) ∷ mailbox_run capacity ms calls

-- The fields of what is sent are 32 bits wide.
abbrev pub SendsWide : List Call → Type 0
SendsWide [] = Unit
SendsWide (send m ∷ calls) = IsWide m × SendsWide calls
SendsWide (next old ∷ calls) = SendsWide calls
SendsWide (count ∷ calls) = SendsWide calls

-- On a valid buffer that holds whole messages and has room for a whole number of them, no sequence
-- of sends of messages with 32-bit fields, receipts and counts tells the bytes from a queue of at
-- most as many messages as the buffer has room for: they arrive whole and in order, a receipt from
-- an empty queue answers -1 and leaves the caller's message, and a send to a full one has no
-- effect.
pub run-mailbox_run :
    (calls : List Call) {f : FifoBuffer} {ms : List AsteriskMessage}
    → Holds f ms
    → SendsWide calls
    → run f calls ≡ mailbox_run (f.capacity / message_size) ms calls
unfolding run mailbox_run
run-mailbox_run [] h wide = refl
run-mailbox_run (send m ∷ calls) {f} {ms} h wide =
    let (h', cap) = message_send-Holds m h wide.0 in
    run-mailbox_run calls h' wide.1
    ∙ ap (λ c. mailbox_run (c / message_size) (post (f.capacity / message_size) ms m) calls) cap
run-mailbox_run (next old ∷ calls) {f} {ms = []} h wide =
    rw (next-none old h) (ap (λ l. received (neg 1) old ∷ l) (run-mailbox_run calls h wide))
run-mailbox_run (next old ∷ calls) {f} {ms = m ∷ ms} h wide =
    let r = next-Received m old h in
    ap₂ (λ x l. x ∷ l) (ap₂ received r.remaining r.message)
      (run-mailbox_run calls r.rest wide
        ∙ ap (λ c. mailbox_run (c / message_size) ms calls) r.capacity)
run-mailbox_run (count ∷ calls) h wide =
    ap₂ (λ n l. counted n ∷ l) (size-count h) (run-mailbox_run calls h wide)
