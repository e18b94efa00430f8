-- ===== src/Sockets/Calls.antt =====
-- What the calls of kernel/unixsocket.c leave.
use asterisk.Base.{
  ℕ, zero, suc, ◌≡◌, ◌≢◌, sym, refl, subst, Bool-cases, inl, inr, true, false, not, ◌&&◌, List, [],
  ◌∷◌, ◌++◌, Option, none, some, Option-cases, ℤ, pos, negsuc, ltb, if_each, min, length, take,
}
use asterisk.FifoBuffer.{
  fifobuffer_get_size, fifobuffer_get_free, fifobuffer_enqueue, fifobuffer_dequeue,
}
use asterisk.PageMemory.Ownership.{has_address}
use asterisk.Pipe.{is_empty}
use asterisk.CString.Printf.{sprintf, string_at}
use asterisk.Sockets.{
  Net, Wake, Try, returned, waits, faulted, with_socket, woken, connect_both, socket_create,
  syscall_socket, find_name, name_of, socket_name_size, unixsocket_bind, unixsocket_listen,
  unixsocket_connect_start, unixsocket_accept_try, unixsocket_send_try, unixsocket_recv_try,
  in_accept, in_send, in_recv,
}
use asterisk.Sockets.Store.{find_name-listed}
use asterisk.Sockets.Linked.{IsLive, Linked, with_socket-Linked, queued-Linked}
use asterisk.Sockets.Ends.{Nowhere, dequeued-Linked, dequeued-Free, connect_both-Linked}
use asterisk.Sockets.Life.{socket_create-Linked, new-Free, old-Free, new_differs}

-- The sockets after a try that does not fault.
abbrev pub leaves : {A : Type 0} → Try A → Option Net
leaves (returned a n) = some n
leaves (waits n) = some n
leaves faulted = none

abbrev pub After : Option Net → Type 0
After none = true ≡ true
After (some n) = Linked n

woken-Linked : (n : Net) (w : Wake) → Linked n → Linked (woken n w)
woken-Linked n w k = record {
  listed = k.listed;
  paired = k.paired;
  pending = k.pending;
  unique = k.unique;
  queues = k.queues;
  fed = k.fed;
}

module _ (n : Net) (address domain thread d : ℕ) where
  socket-made :
      ltb domain 3 ≡ true
      → syscall_socket n address domain thread (some d)
        ≡ (pos d, socket_create n address domain thread)
  unfolding syscall_socket
  socket-made f = rw f refl

  socket-refused :
      ltb domain 3 ≡ false → syscall_socket n address domain thread (some d) ≡ (negsuc 0, n)
  unfolding syscall_socket
  socket-refused f = rw f refl

module _ (n : Net) (s : ℕ) (k : Linked n) (live : IsLive n s) where
  pub bind-Linked : (name : List ℕ) → After (leaves (unixsocket_bind n s name))
  unfolding unixsocket_bind
  bind-Linked name =
      elim (Bool-cases (is_empty (name_of (n.sockets s).custom_socket) && not (is_empty name))) [
        | inr e ↦ rw (e, unixsocket_bind) k
        | inl e ↦ elim (Option-cases (find_name n.sockets n.g_socket_list name)) [
          | inl f ↦ rw (e, unixsocket_bind, f) refl
          | inr (some taken, f) ↦ rw (e, unixsocket_bind, f) k
          | inr (none, f) ↦
              elim (Option-cases
                (sprintf socket_name_size socket_name_size (name ++ (0 ∷ [])) [])) [
                  | inl g ↦ rw (e, unixsocket_bind, f, g) refl
                  | inr (out, g) ↦
                      rw (e, unixsocket_bind, f, g)
                        (with_socket-Linked n s
                          (record (n.sockets s) { custom_socket = string_at out }) refl refl refl
                          (inl refl) k)
                ]
        ]
      ]

  pub listen-Linked : Linked (unixsocket_listen n s)
  unfolding unixsocket_listen
  listen-Linked = with_socket-Linked n s _ refl refl refl (inl refl) k

  pub connect_start-Linked :
      Nowhere n s → (name : List ℕ) → After (leaves (unixsocket_connect_start n s name))
  unfolding unixsocket_connect_start
  connect_start-Linked nowhere [] = k
  connect_start-Linked nowhere (c ∷ name) = elim (Option-cases (n.sockets s).connection) [
    | inr (other, e) ↦ rw (e, unixsocket_connect_start) k
    | inl e ↦ elim (Option-cases (find_name n.sockets n.g_socket_list (c ∷ name))) [
      | inl f ↦ rw (e, unixsocket_connect_start, f) refl
      | inr (none, f) ↦ rw (e, unixsocket_connect_start, f) k
      | inr (some l, f) ↦
          rw (e, unixsocket_connect_start, f)
            (if_each {A = Try ℤ} (λ t. After (leaves t)) (n.sockets l).accepts
              (λ accepts. woken-Linked _ (in_accept (n.sockets l).last_thread) (
                queued-Linked n l s k (find_name-listed n.sockets n.g_socket_list (c ∷ name) l f)
                  live e nowhere))
              (λ refuses. k))
    ]
  ]

  pub accept_try-Linked :
      (address thread : ℕ) (fd : Option ℕ)
      → has_address n.g_socket_list address ≡ false
      → After (leaves (unixsocket_accept_try n s address thread fd))
  unfolding unixsocket_accept_try syscall_socket
  accept_try-Linked address thread fd fresh = elim (Bool-cases (n.sockets s).accepts) [
    | inr e ↦ rw (e, unixsocket_accept_try) k
    | inl e ↦ rw (e, unixsocket_accept_try) (next (n.sockets s).accept_queue refl fd)
  ]
    where
      next :
          (queue : List ℕ)
          → (n.sockets s).accept_queue ≡ queue
          → (fd : Option ℕ)
          → After (
              leaves (elim queue [
                | [] ↦ waits n
                | other ∷ rest ↦
                    let n' = with_socket n s (record (n.sockets s) { accept_queue = rest }) in
                    let (result, n'') = syscall_socket n' address (n.sockets s).domain thread fd in
                    elim result [
                      | negsuc e ↦ waits n''
                      | pos d ↦ returned (pos d) (connect_both n'' address other)
                    ]
              ]))
      next [] q fd = k
      next (other ∷ rest) q none = dequeued-Linked n s other rest k live q
      next (other ∷ rest) q (some d) =
          let n' = with_socket n s (record (n.sockets s) { accept_queue = rest }) in
          let domain = (n.sockets s).domain in
          let k' = dequeued-Linked n s other rest k live q in
          let free = dequeued-Free n s other rest k live q in
          opened n' domain other d k' (
            connect_both-Linked (socket_create n' address domain thread) address other
              (socket_create-Linked n' address domain thread k' fresh)
              (new-Free n' address domain thread k' fresh)
              (old-Free n' address domain thread k' fresh other free)
              (new_differs n' address domain thread k' fresh other free.0))
        where
          opened :
              (n' : Net) (domain other d : ℕ)
              → Linked n'
              → Linked (connect_both (socket_create n' address domain thread) address other)
              → After (
                  leaves (
                    let (result, n'') = syscall_socket n' address domain thread (some d) in
                    elim result [
                      | negsuc e ↦ waits n''
                      | pos d ↦ returned (pos d) (connect_both n'' address other)
                    ]))
          opened n' domain other d k' made = elim (Bool-cases (ltb domain 3)) [
            | inl f ↦ subst goes_on (sym (socket-made n' address domain thread d f)) made
            | inr f ↦ subst goes_on (sym (socket-refused n' address domain thread d f)) k'
          ]
            where
              goes_on : ℤ × Net → Type 0
              goes_on r = After (
                  leaves (elim r.0 [
                    | negsuc e ↦ waits r.1
                    | pos d ↦ returned (pos d) (connect_both r.1 address other)
                  ]))

  pub send_try-Linked : (bytes : List ℕ) → After (leaves (unixsocket_send_try n s bytes))
  unfolding unixsocket_send_try
  send_try-Linked [] = k
  send_try-Linked (b ∷ bytes) = elim (Option-cases (n.sockets s).connection) [
    | inl e ↦ rw (e, unixsocket_send_try) k
    | inr (other, e) ↦
        rw (e, unixsocket_send_try)
          (if_each {A = Try ℤ} (λ t. After (leaves t))
            (ltb 0 (fifobuffer_get_free (n.sockets other).buffer_in))
            (λ room. woken-Linked _ (in_recv (n.sockets other).last_thread) (
              with_socket-Linked n other
                (record (n.sockets other) {
                  buffer_in =
                      (fifobuffer_enqueue (n.sockets other).buffer_in (
                        take
                          (min (fifobuffer_get_free (n.sockets other).buffer_in)
                            (suc (length bytes)))
                          (b ∷ bytes))).1;
                })
                refl refl refl (inr (s, (k.paired s other live e).1)) k))
            (λ full. k))
  ]

  pub recv_try-Linked :
      (len : ℕ)
      → After (leaves (unixsocket_recv_try n s len)) × (unixsocket_recv_try n s len ≢ faulted)
  unfolding unixsocket_recv_try
  recv_try-Linked zero = (k, λ e. absurd (cc))
  recv_try-Linked (suc len) = elim (Bool-cases (n.sockets s).disconnected) [
    | inl e ↦ rw (e, unixsocket_recv_try) (k, λ f. absurd (cc))
    | inr e ↦ elim (Bool-cases (ltb 0 (fifobuffer_get_size (n.sockets s).buffer_in))) [
      | inr f ↦ rw (e, unixsocket_recv_try, f) (k, λ g. absurd (cc))
      | inl f ↦ elim (Option-cases (n.sockets s).connection) [
        | inl g ↦ (let no = k.fed s live g e in absurd (cc))
        | inr (other, g) ↦
            rw (e, unixsocket_recv_try, f, g)
              (
                woken-Linked _ (in_send (n.sockets other).last_thread) (
                    with_socket-Linked n s
                      (record (n.sockets s) {
                        buffer_in =
                            (fifobuffer_dequeue (n.sockets s).buffer_in
                              (min (fifobuffer_get_size (n.sockets s).buffer_in) (suc len))).2;
                      })
                      refl refl refl (inr (other, g)) k),
                λ h. absurd (cc),
              )
      ]
    ]
  ]
