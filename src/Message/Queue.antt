-- ===== src/Message/Queue.antt =====
-- The byte buffer of a thread as a bounded queue of messages: no message is torn.
use asterisk.Base.{
  ℕ, ◌*◌, ◌/◌, ◌%◌, ◌≤◌, ◌≡◌, ◌≢◌, ◌∙◌, sym, refl, ap, ap₂, arith, true, false, List, [], ◌∷◌, ◌++◌,
  ℤ, pos, neg, to_int32-small, length, length-append, take, take-all, drop, ltb, ltb→le, ltb→lt,
  Bool-cases, inl, inr, if◌then◌else◌, append_assoc, append-nil,
}
use asterisk.FifoBuffer.{FifoBuffer, fifobuffer_get_size, fifobuffer_get_free, fifobuffer_dequeue}
use asterisk.FifoBuffer.Valid.{IsValid, fifobuffer_get_free-sub}
use asterisk.FifoBuffer.Contents.{contents, length-contents}
use asterisk.FifoBuffer.Enqueue.{fifobuffer_enqueue_lem}
use asterisk.FifoBuffer.Dequeue.{fifobuffer_dequeue_lem}
use asterisk.Message.{
  AsteriskMessage, message_size, message_bytes, message_at, message_send, message_get_queue_count,
  message_get_next,
}
use asterisk.Message.Words.{IsWide, message_at-message_bytes, length-message_bytes}

unfoldable pub all_bytes : List AsteriskMessage → List ℕ
all_bytes [] = []
all_bytes (m ∷ ms) = message_bytes m ++ all_bytes ms

abbrev pub AllWide : List AsteriskMessage → Type 0
AllWide [] = Unit
AllWide (m ∷ ms) = IsWide m × AllWide ms

-- The buffer `f` holds exactly the messages `ms`, and whole messages fit into it.
pub record Holds (f : FifoBuffer) (ms : List AsteriskMessage) : Type 0 where
  pub valid : IsValid f
  pub bytes : contents f ≡ all_bytes ms
  pub wide : AllWide ms
  pub whole : f.capacity % message_size ≡ 0

length-all_bytes : (ms : List AsteriskMessage) → length (all_bytes ms) ≡ 16 * length ms
unfolding all_bytes
length-all_bytes [] = refl
length-all_bytes (m ∷ ms) =
    length-append (message_bytes m) (all_bytes ms)
    ∙ omega (arith, length-message_bytes m, length-all_bytes ms)

all_bytes-append :
    (ms : List AsteriskMessage) (m : AsteriskMessage)
    → all_bytes (ms ++ (m ∷ [])) ≡ all_bytes ms ++ message_bytes m
unfolding all_bytes
all_bytes-append [] m = append-nil (message_bytes m)
all_bytes-append (n ∷ ms) m =
    ap (λ l. message_bytes n ++ l) (all_bytes-append ms m)
    ∙ sym (append_assoc (message_bytes n) (all_bytes ms) (message_bytes m))

AllWide-append :
    (ms : List AsteriskMessage) (m : AsteriskMessage)
    → AllWide ms
    → IsWide m
    → AllWide (ms ++ (m ∷ []))
AllWide-append [] m ws w = (w, tt)
AllWide-append (n ∷ ms) m ws w = (ws.0, AllWide-append ms m ws.1 w)

-- The number of messages from the number of bytes.
size-length :
    {f : FifoBuffer} {ms : List AsteriskMessage} → Holds f ms → f.used_bytes ≡ 16 * length ms
size-length {f} {ms} h = sym (length-contents f) ∙ ap (length {A = ℕ}) h.bytes ∙ length-all_bytes ms

message_bytes-some : (m : AsteriskMessage) → message_bytes m ≢ []
unfolding message_bytes
message_bytes-some m e = cc

-- A message is put at the end if the queue is not full, and dropped as a whole if it is.
abbrev pub post : ℕ → List AsteriskMessage → AsteriskMessage → List AsteriskMessage
post capacity ms m = if ltb (length ms) capacity then ms ++ (m ∷ []) else ms

pub message_send-Holds :
    {f : FifoBuffer} {ms : List AsteriskMessage} (m : AsteriskMessage)
    → Holds f ms
    → IsWide m
    → Holds (message_send f m) (post (f.capacity / message_size) ms m)
      × ((message_send f m).capacity ≡ f.capacity)
unfolding message_send
message_send-Holds {f} {ms} m h w =
    let (_, held, valid, cap) =
      fifobuffer_enqueue_lem (message_bytes m) h.valid (message_bytes-some m) in
    let n = size-length h in
    let free = fifobuffer_get_free-sub h.valid in
    elim (Bool-cases (ltb (length ms) (f.capacity / message_size))) [
      | inl room ↦
          let fits : length (message_bytes m) ≤ fifobuffer_get_free f =
            omega (arith, ltb→lt _ _ room, length-message_bytes m, h.whole) in
          rw room (
            record {
              valid = valid;
              bytes =
                  held
                  ∙ ap₂ (λ xs ys. xs ++ ys) h.bytes (take-all _ (message_bytes m) fits)
                  ∙ sym (all_bytes-append ms m);
              wide = AllWide-append ms m h.wide w;
              whole = rw cap h.whole;
            },
            cap,
          )
      | inr full ↦
          let none_free : fifobuffer_get_free f ≡ 0 = omega (arith, ltb→le _ _ full, h.whole) in
          rw full (
            record {
              valid = valid;
              bytes =
                  held
                  ∙ ap (λ k. contents f ++ take k (message_bytes m)) none_free
                  ∙ append-nil (contents f)
                  ∙ h.bytes;
              wide = h.wide;
              whole = rw cap h.whole;
            },
            cap,
          )
    ]

pub size-count :
    {f : FifoBuffer} {ms : List AsteriskMessage}
    → Holds f ms
    → message_get_queue_count f ≡ length ms
unfolding message_get_queue_count fifobuffer_get_size
size-count h = omega (arith, size-length h)

take_message :
    (m : AsteriskMessage) (rest : List ℕ)
    → take message_size (message_bytes m ++ rest) ≡ message_bytes m
unfolding message_bytes
take_message m rest = refl

drop_message :
    (m : AsteriskMessage) (rest : List ℕ) → drop message_size (message_bytes m ++ rest) ≡ rest
unfolding message_bytes
drop_message m rest = refl

-- The message at the pointer is overwritten as a whole.
overwritten :
    (m old : AsteriskMessage)
    → IsWide m
    → message_at (message_bytes m ++ drop (length (message_bytes m)) (message_bytes old)) ≡ m
unfolding message_bytes
overwritten m old w = ap message_at (all m old) ∙ message_at-message_bytes m w
  where
    all :
        (m old : AsteriskMessage)
        → message_bytes m ++ drop (length (message_bytes m)) (message_bytes old) ≡ message_bytes m
    all m old = refl

pub next-none :
    {f : FifoBuffer} (old : AsteriskMessage) → Holds f [] → message_get_next f old ≡ (neg 1, old, f)
unfolding message_get_next fifobuffer_get_size
next-none {f} old h =
    let empty : ltb 0 (f.used_bytes / message_size) ≡ false = ground (arith, size-length h) in
    rw empty refl

-- What `message_get_next` of a queue that begins with `m` has done.
pub record Received (f : FifoBuffer) (m : AsteriskMessage) (ms : List AsteriskMessage)
    (out : ℤ × AsteriskMessage × FifoBuffer) : Type 0 where
  pub remaining : out.0 ≡ pos (length ms)
  pub message : out.1 ≡ m
  pub rest : Holds out.2 ms
  pub capacity : out.2.capacity ≡ f.capacity

pub next-Received :
    {f : FifoBuffer} {ms : List AsteriskMessage} (m old : AsteriskMessage)
    → Holds f (m ∷ ms)
    → Received f m ms (message_get_next f old)
unfolding message_get_next fifobuffer_get_size all_bytes
next-Received {f} {ms} m old h =
    let (_, out, rest, valid, cap) = fifobuffer_dequeue_lem message_size h.valid (omega arith) in
    let n = size-length h in
    let some_left : ltb 0 (f.used_bytes / message_size) ≡ true = ground (arith, n) in
    let got : (fifobuffer_dequeue f message_size).1 ≡ message_bytes m =
      out ∙ ap (take message_size) h.bytes ∙ take_message m (all_bytes ms) in
    let small = h.valid.small in
    let used = h.valid.used_in in
    rw some_left (record {
      remaining = to_int32-small _ (omega arith) ∙ ap pos (omega (arith, n));
      message =
          ap (λ l. message_at (l ++ drop (length l) (message_bytes old))) got
          ∙ overwritten m old h.wide.0;
      rest = record {
        valid = valid;
        bytes = rest ∙ ap (drop message_size) h.bytes ∙ drop_message m (all_bytes ms);
        wide = h.wide.1;
        whole = rw cap h.whole;
      };
      capacity = cap;
    })
