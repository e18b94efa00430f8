-- ===== src/Sockets/Examples.antt =====
-- The theorems at a server and a client that connects to it.
use asterisk.Base.{arith, subst, if_each, ℕ, ◌≡◌, refl, true, false, List, [], ◌∷◌, some, pos, ◌==◌}
use asterisk.FifoBuffer.{FifoBuffer}
use asterisk.CString.Printf.{sprintf, sprintf_va, sprintf_loop}
use asterisk.PageMemory.Ownership.{has_address}
use asterisk.Sockets.{
  Net, Socket, returned, new_socket, with_socket, socket_create, syscall_socket, socket_fs_close,
  find_name, connect_both, woken, in_accept, unixsocket_bind, unixsocket_listen,
  unixsocket_connect_start, unixsocket_accept_try, unixsocket_recv_try,
}
use asterisk.Sockets.Linked.{Linked}
use asterisk.Sockets.Ends.{Nowhere}
use asterisk.Sockets.Calls.{leaves}
use asterisk.Sockets.{unixsocket_send_try}
use asterisk.Sockets.Stream.{recv_try-send_try}
use asterisk.FifoBuffer.Valid.{IsValid}
use asterisk.Sockets.Steps.{
  no_sockets, Run, started, created, bound, listening, connecting, accepting, Run-Linked,
  recv_try-close,
}

abbrev memory : ℕ → Socket
memory a = new_socket 0 0

-- The server is the socket 1, which a thread 10 uses, and the client the socket 2 of a thread 20.
abbrev two : Net
two =
    record (with_socket (with_socket (no_sockets memory) 1 (new_socket 1 10)) 2 (new_socket 1 20)) {
      g_socket_list = 1 ∷ 2 ∷ [];
    }

create_two :
    (syscall_socket (syscall_socket (no_sockets memory) 1 1 10 (some 3)).1 2 1 20 (some 3)).1 ≡ two
unfolding syscall_socket socket_create
create_two = refl

two-Run : Run memory two
unfolding syscall_socket socket_create
two-Run =
    subst (Run memory) create_two
      (created 2 1 20 (some 3) (created 1 1 10 (some 3) started refl) refl)

abbrev server_name : List ℕ
server_name = b'x' ∷ []

abbrev named : Net
named = with_socket two 1 (record (new_socket 1 10) { custom_socket = some server_name })

bind_server : leaves (unixsocket_bind two 1 server_name) ≡ some named
unfolding unixsocket_bind find_name sprintf sprintf_va sprintf_loop
bind_server = refl

abbrev open_server : Net
open_server = with_socket named 1 (record (named.sockets 1) { accepts = true })

listen_server : unixsocket_listen named 1 ≡ open_server
unfolding unixsocket_listen
listen_server = refl

abbrev asked : Net
asked =
    woken (with_socket open_server 1 (record (open_server.sockets 1) { accept_queue = 2 ∷ [] }))
      (in_accept 10)

connect_client : leaves (unixsocket_connect_start open_server 2 server_name) ≡ some asked
unfolding unixsocket_connect_start find_name
connect_client = refl

abbrev connected : Net
connected =
    connect_both
      (record (with_socket (with_socket asked 1 (record (asked.sockets 1) { accept_queue = [] })) 3
        (new_socket 1 10)) { g_socket_list = 1 ∷ 2 ∷ 3 ∷ [] })
      3 2

accept_client : leaves (unixsocket_accept_try asked 1 3 10 (some 4)) ≡ some connected
unfolding unixsocket_accept_try syscall_socket socket_create
accept_client = refl

-- Nobody waits before the client does.
nobody : Nowhere open_server 2
nobody j live =
    if_each {A = Socket} no_queue (j == 1) (λ e. refl)
      (λ e.
        if_each {A = Socket} no_queue (j == 1) (λ f. refl)
          (λ f.
            if_each {A = Socket} no_queue (j == 2) (λ g. refl)
              (λ g. if_each {A = Socket} no_queue (j == 1) (λ h. refl) (λ h. refl))))
  where
    no_queue : Socket → Type 0
    no_queue x = has_address x.accept_queue 2 ≡ false

connected-Run : Run memory connected
connected-Run =
    accepting 1 3 10 (some 4)
      (connecting 2 server_name
        (subst (Run memory) listen_server
          (listening 1 (bound 1 server_name two-Run refl bind_server) refl))
        refl nobody connect_client)
      refl refl accept_client

Run-Linked_example : Linked connected
Run-Linked_example = Run-Linked connected-Run

-- The ends are connected with each other.
both_ends :
    ((connected.sockets 3).connection ≡ some 2) × ((connected.sockets 2).connection ≡ some 3)
both_ends = (refl, refl)

abbrev one_byte : FifoBuffer
one_byte = record {
  bytes = 104 ∷ 0 ∷ [];
  capacity = 2;
  used_bytes = 1;
  read_index = 0;
  write_index = 1;
}

-- The socket 2 has a byte to read.
abbrev byte_there : Net
byte_there = with_socket connected 2 (record (connected.sockets 2) { buffer_in = one_byte })

recv_try-close_example :
    (unixsocket_recv_try (socket_fs_close byte_there 3) 2 10
      ≡ returned (pos 0, []) (socket_fs_close byte_there 3))
    × (((socket_fs_close byte_there 3).sockets 2).buffer_in ≡ one_byte)
recv_try-close_example = recv_try-close byte_there 3 2 9 refl

-- The socket 3 has a byte to read, and room for two more.
abbrev roomy : FifoBuffer
roomy = record {
  bytes = 104 ∷ 0 ∷ 0 ∷ [];
  capacity = 3;
  used_bytes = 1;
  read_index = 0;
  write_index = 1;
}

abbrev room_there : Net
room_there = with_socket connected 3 (record (connected.sockets 3) { buffer_in = roomy })

recv_try-send_try_example :
    (m : Net) × (m' : Net) × (unixsocket_send_try room_there 2 (105 ∷ 33 ∷ []) ≡ returned (pos 2) m)
    × (unixsocket_recv_try m 3 10 ≡ returned (pos 3, 104 ∷ 105 ∷ 33 ∷ []) m')
recv_try-send_try_example =
    recv_try-send_try room_there 2 3 105 (33 ∷ []) 9 refl refl refl roomy-IsValid (omega arith)
      (omega arith)
  where
    roomy-IsValid : IsValid roomy
    roomy-IsValid = record {
      storage = refl;
      nonempty = omega arith;
      small = omega arith;
      used_in = omega arith;
      read_in = omega arith;
      write_at = refl;
    }
