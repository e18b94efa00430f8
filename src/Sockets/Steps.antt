-- ===== src/Sockets/Steps.antt =====
-- Sequences of the calls of kernel/socket.c and kernel/unixsocket.c. A thread that waits in connect
-- makes no other call; that no other thread uses its socket then is a condition of the steps.
use asterisk.Base.{
  ℕ, suc, ◌≡◌, ◌≢◌, refl, ap, subst, Bool-cases, inl, inr, true, false, List, [], Option, none,
  some, pos, ltb,
}
use asterisk.PageMemory.Ownership.{has_address}
use asterisk.Sockets.{
  Net, Socket, returned, faulted, syscall_socket, socket_fs_close, unixsocket_bind,
  unixsocket_listen, unixsocket_connect_start, unixsocket_accept_try, unixsocket_send_try,
  unixsocket_recv_try,
}
use asterisk.Sockets.Store.{at_self}
use asterisk.Sockets.Linked.{IsLive, Linked}
use asterisk.Sockets.Ends.{Nowhere}
use asterisk.Sockets.Life.{socket_create-Linked}
use asterisk.Sockets.Closing.{socket_fs_close-Linked}
use asterisk.Sockets.Calls.{
  leaves, After, bind-Linked, listen-Linked, connect_start-Linked, accept_try-Linked,
  send_try-Linked, recv_try-Linked,
}

-- Before there are sockets; the memory holds anything.
abbrev pub no_sockets : (ℕ → Socket) → Net
no_sockets memory = record { g_socket_list = []; sockets = memory; wakes = [] }

-- What is reached by calls that do not fault, on sockets that have not been closed. kmalloc returns
-- an address where there is no socket.
pub data Run (memory : ℕ → Socket) : Net → Type 0 where
  started : Run memory (no_sockets memory)
  created :
      {n : Net} (address domain thread : ℕ) (fd : Option ℕ)
      → Run memory n
      → has_address n.g_socket_list address ≡ false
      → Run memory (syscall_socket n address domain thread fd).1
  bound :
      {n m : Net} (s : ℕ) (name : List ℕ)
      → Run memory n
      → IsLive n s
      → leaves (unixsocket_bind n s name) ≡ some m
      → Run memory m
  listening : {n : Net} (s : ℕ) → Run memory n → IsLive n s → Run memory (unixsocket_listen n s)
  connecting :
      {n m : Net} (s : ℕ) (name : List ℕ)
      → Run memory n
      → IsLive n s
      → Nowhere n s
      → leaves (unixsocket_connect_start n s name) ≡ some m
      → Run memory m
  accepting :
      {n m : Net} (s address thread : ℕ) (fd : Option ℕ)
      → Run memory n
      → IsLive n s
      → has_address n.g_socket_list address ≡ false
      → leaves (unixsocket_accept_try n s address thread fd) ≡ some m
      → Run memory m
  sending :
      {n m : Net} (s : ℕ) (bytes : List ℕ)
      → Run memory n
      → IsLive n s
      → leaves (unixsocket_send_try n s bytes) ≡ some m
      → Run memory m
  receiving :
      {n m : Net} (s len : ℕ)
      → Run memory n
      → IsLive n s
      → leaves (unixsocket_recv_try n s len) ≡ some m
      → Run memory m
  closed :
      {n : Net} (s : ℕ) → Run memory n → IsLive n s → Nowhere n s → Run memory (socket_fs_close n s)

syscall_socket-Linked :
    (n : Net) (address domain thread : ℕ) (fd : Option ℕ)
    → Linked n
    → has_address n.g_socket_list address ≡ false
    → Linked (syscall_socket n address domain thread fd).1
unfolding syscall_socket
syscall_socket-Linked n address domain thread none k fresh = k
syscall_socket-Linked n address domain thread (some fd) k fresh = elim (Bool-cases (ltb domain 3)) [
  | inl e ↦ rw e (socket_create-Linked n address domain thread k fresh)
  | inr e ↦ rw e k
]

-- Whatever calls that do not fault follow each other, on sockets that are not closed, where a
-- socket that waits to be accepted is neither connected again nor closed: a connection is always
-- one of both its ends, which are not freed; a socket waits at most once, and has no connection
-- then; and one with bytes to read has a connection or had one.
pub Run-Linked : {memory : ℕ → Socket} {n : Net} → Run memory n → Linked n
Run-Linked started = record {
  listed = refl;
  paired = λ a b live e. absurd (cc);
  pending = λ l x w. (let live = w.0 in absurd (cc));
  unique = λ l k x w v. (let live = w.0 in absurd (cc));
  queues = λ l live. absurd (cc);
  fed = λ a live e off. absurd (cc);
}
Run-Linked (created {n = n} address domain thread fd run fresh) =
    syscall_socket-Linked n address domain thread fd (Run-Linked run) fresh
Run-Linked (bound {n = n} s name run live e) =
    subst After e (bind-Linked n s (Run-Linked run) live name)
Run-Linked (listening {n = n} s run live) = listen-Linked n s (Run-Linked run) live
Run-Linked (connecting {n = n} s name run live nowhere e) =
    subst After e (connect_start-Linked n s (Run-Linked run) live nowhere name)
Run-Linked (accepting {n = n} s address thread fd run live fresh e) =
    subst After e (accept_try-Linked n s (Run-Linked run) live address thread fd fresh)
Run-Linked (sending {n = n} s bytes run live e) =
    subst After e (send_try-Linked n s (Run-Linked run) live bytes)
Run-Linked (receiving {n = n} s len run live e) =
    subst After e (recv_try-Linked n s (Run-Linked run) live len).0
Run-Linked (closed {n = n} s run live nowhere) =
    socket_fs_close-Linked n s (Run-Linked run) live nowhere

-- After such calls, a read from a socket that has not been closed never goes through the null
-- pointer of a connection that is gone.
pub recv_try-faulted :
    {memory : ℕ → Socket} {n : Net} (s len : ℕ)
    → Run memory n
    → IsLive n s
    → unixsocket_recv_try n s len ≢ faulted
recv_try-faulted {n = n} s len run live = (recv_try-Linked n s (Run-Linked run) live len).1

closed_end :
    (n : Net) (s other : ℕ)
    → (n.sockets s).connection ≡ some other
    → (socket_fs_close n s).sockets other
      ≡ record (n.sockets other) { connection = none; disconnected = true }
unfolding socket_fs_close
closed_end n s other e = rw (e, socket_fs_close) (at_self n other _)

disconnected_end :
    (n : Net) (s len : ℕ)
    → (n.sockets s).disconnected ≡ true
    → unixsocket_recv_try n s (suc len) ≡ returned (pos 0, []) n
unfolding unixsocket_recv_try
disconnected_end n s len e = rw (e, unixsocket_recv_try) refl

-- After one end of a connection has been closed, a read of at least one byte from the other end
-- says 0 and hands over nothing, and the bytes that had been sent stay in its buffer.
pub recv_try-close :
    (n : Net) (s other len : ℕ)
    → (n.sockets s).connection ≡ some other
    → (unixsocket_recv_try (socket_fs_close n s) other (suc len)
        ≡ returned (pos 0, []) (socket_fs_close n s))
      × (((socket_fs_close n s).sockets other).buffer_in ≡ (n.sockets other).buffer_in)
recv_try-close n s other len e =
    let end = closed_end n s other e in
    (
      disconnected_end (socket_fs_close n s) other len (ap (λ x. x.disconnected) end),
      ap (λ x. x.buffer_in) end,
    )
