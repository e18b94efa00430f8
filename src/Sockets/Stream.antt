-- ===== src/Sockets/Stream.antt =====
-- The bytes between the two ends of a connection of kernel/unixsocket.c.
use asterisk.Base.{
  ℕ, suc, ◌+◌, ◌≡◌, ◌≤◌, ◌<◌, ◌∙◌, sym, refl, ap, ap₂, subst, arith, true, false, List, ◌∷◌, ◌++◌,
  some, pos, ltb, lt→ltb, length, length-append, take, take-all, min,
}
use asterisk.FifoBuffer.{
  FifoBuffer, fifobuffer_get_free, fifobuffer_get_size, fifobuffer_enqueue, fifobuffer_dequeue,
}
use asterisk.FifoBuffer.Valid.{IsValid, fifobuffer_get_free-sub}
use asterisk.FifoBuffer.Contents.{contents, length-contents}
use asterisk.FifoBuffer.Enqueue.{fifobuffer_enqueue_lem}
use asterisk.FifoBuffer.Dequeue.{fifobuffer_dequeue_lem}
use asterisk.Sockets.{
  Net, returned, with_socket, woken, in_recv, unixsocket_send_try, unixsocket_recv_try,
}
use asterisk.Sockets.Store.{at_self}

-- What a send leaves where there is room, and a receipt where there are bytes.
module _ (n : Net) (s other : ℕ) (e : (n.sockets s).connection ≡ some other) where
  abbrev pub filled : FifoBuffer → Net
  filled buffer =
      woken (with_socket n other (record (n.sockets other) { buffer_in = buffer }))
        (in_recv (n.sockets other).last_thread)

  send_try-room :
      (b : ℕ) (bytes : List ℕ)
      → ltb 0 (fifobuffer_get_free (n.sockets other).buffer_in) ≡ true
      → let (written, buffer) = fifobuffer_enqueue (n.sockets other).buffer_in (
          take
            (min (fifobuffer_get_free (n.sockets other).buffer_in) (suc (length bytes)))
            (b ∷ bytes)) in
        unixsocket_send_try n s (b ∷ bytes) ≡ returned written (filled buffer)
  unfolding unixsocket_send_try
  send_try-room b bytes room = rw (e, unixsocket_send_try, room) refl

  recv_try-bytes :
      (len : ℕ)
      → (n.sockets s).disconnected ≡ false
      → ltb 0 (fifobuffer_get_size (n.sockets s).buffer_in) ≡ true
      → let (read, out, buffer) =
          fifobuffer_dequeue
            (n.sockets s).buffer_in
            (min (fifobuffer_get_size (n.sockets s).buffer_in) (suc len)) in
        (m : Net) × (unixsocket_recv_try n s (suc len) ≡ returned (read, out) m)
  unfolding unixsocket_recv_try
  recv_try-bytes len on there = rw (on, unixsocket_recv_try, there, e) (_, refl)

-- What a receipt reads that asks for as many bytes as there are.
recv_try-all :
    (n : Net) (s other len : ℕ)
    → (n.sockets s).connection ≡ some other
    → (n.sockets s).disconnected ≡ false
    → IsValid (n.sockets s).buffer_in
    → 0 < (n.sockets s).buffer_in.used_bytes
    → (n.sockets s).buffer_in.used_bytes ≤ suc len
    → (m : Net) × (unixsocket_recv_try n s (suc len)
        ≡ returned (pos (n.sockets s).buffer_in.used_bytes, contents (n.sockets s).buffer_in) m)
unfolding fifobuffer_get_size
recv_try-all n s other len e on v there enough =
    let f = (n.sockets s).buffer_in in
    let asked : min f.used_bytes (suc len) ≡ f.used_bytes = omega (arith, enough) in
    let (read, out, rest, valid, capacity) = fifobuffer_dequeue_lem f.used_bytes v there in
    let all : (fifobuffer_dequeue f f.used_bytes).1 ≡ contents f =
      out ∙ take-all f.used_bytes (contents f) (omega (arith, length-contents f)) in
    let count : (fifobuffer_dequeue f f.used_bytes).0 ≡ pos f.used_bytes =
      read ∙ ap pos (ap length all ∙ length-contents f) in
    let (m, received) = recv_try-bytes n s other e len on (lt→ltb 0 f.used_bytes there) in
    (
      m,
      received
          ∙ (ap (λ k. returned ((fifobuffer_dequeue f k).0, (fifobuffer_dequeue f k).1) m) asked
              ∙ ap₂ (λ r o. returned (r, o) m) count all),
    )

-- One end sends bytes for which there is room in the other's buffer, of less than 2 ^ 31 bytes: all
-- are sent, and a receipt at the other end that asks for as many as there are then reads what was
-- there before and after it the bytes that were sent.
pub recv_try-send_try :
    (n : Net) (s other b : ℕ) (bytes : List ℕ) (len : ℕ)
    → (n.sockets s).connection ≡ some other
    → (n.sockets other).connection ≡ some s
    → (n.sockets other).disconnected ≡ false
    → IsValid (n.sockets other).buffer_in
    → (n.sockets other).buffer_in.used_bytes + length (b ∷ bytes)
      ≤ (n.sockets other).buffer_in.capacity
    → (n.sockets other).buffer_in.used_bytes + length (b ∷ bytes) ≤ suc len
    → (m : Net) × (m' : Net) × (unixsocket_send_try n s (b ∷ bytes)
        ≡ returned (pos (length (b ∷ bytes))) m)
      × (unixsocket_recv_try m other (suc len)
          ≡ returned
              (
                pos ((n.sockets other).buffer_in.used_bytes + length (b ∷ bytes)),
                contents (n.sockets other).buffer_in ++ (b ∷ bytes),
              )
              m')
recv_try-send_try n s other b bytes len e back on v fits enough =
    let f = (n.sockets other).buffer_in in
    let free = fifobuffer_get_free-sub v in
    let xs : List ℕ = b ∷ bytes in
    let whole : take (min (fifobuffer_get_free f) (length xs)) xs ≡ xs =
      take-all (min (fifobuffer_get_free f) (length xs)) xs (omega (arith, free, fits)) in
    let sent =
      send_try-room n s other e b bytes
        (lt→ltb 0 (fifobuffer_get_free f) (omega (arith, free, fits))) in
    let (written, held, valid, capacity) = fifobuffer_enqueue_lem xs v (λ h. absurd (cc)) in
    let f' : FifoBuffer = (fifobuffer_enqueue f xs).1 in
    let count : (fifobuffer_enqueue f xs).0 ≡ pos (length xs) =
      written ∙ ap pos (omega (arith, free, fits)) in
    let appended : contents f' ≡ contents f ++ xs =
      held
      ∙ ap (λ l. contents f ++ l)
          (take-all (fifobuffer_get_free f) xs (omega (arith, free, fits))) in
    let used : f'.used_bytes ≡ f.used_bytes + length xs =
      sym (length-contents f')
      ∙ (ap length appended
          ∙ (length-append (contents f) xs ∙ ap (λ k. k + length xs) (length-contents f))) in
    let m : Net = filled n s other e f' in
    let at : m.sockets other ≡ record (n.sockets other) { buffer_in = f' } = at_self n other _ in
    let buffer : (m.sockets other).buffer_in ≡ f' = ap (λ x. x.buffer_in) at in
    let size : (m.sockets other).buffer_in.used_bytes ≡ f.used_bytes + length xs =
      ap (λ g. g.used_bytes) buffer ∙ used in
    let (m', received) =
      recv_try-all m other s len (ap (λ x. x.connection) at ∙ back)
        (ap (λ x. x.disconnected) at ∙ on) (subst IsValid (sym buffer) valid) (omega (arith, size))
        (omega (arith, size, enough)) in
    (
      m,
      m',
      sent
          ∙ (ap
                (λ l.
                  returned (fifobuffer_enqueue f l).0
                    (filled n s other e (fifobuffer_enqueue f l).1))
                whole
              ∙ ap (λ k. returned k m) count),
      received ∙ ap₂ (λ k l. returned (pos k, l) m') size (ap contents buffer ∙ appended),
    )
