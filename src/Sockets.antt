-- ===== src/Sockets.antt =====
-- kernel/socket.c and kernel/unixsocket.c. A pointer to a socket is a number; an access to one that
-- has been freed, or through the null pointer, is a fault. The parts of accept, connect, send and
-- recv that wait are one try of their loops.
pub mod Store
pub mod Linked
pub mod Ends
pub mod Life
pub mod Closing
pub mod Calls
pub mod Steps
pub mod Stream
mod Examples
use asterisk.Base.{
  ℕ, zero, suc, ◌*◌, Bool, true, false, not, ◌&&◌, List, [], ◌∷◌, ◌++◌, Option, none, some, ℤ, pos,
  negsuc, neg, ltb, ◌==◌, if◌then◌else◌, length, take, min,
}
use asterisk.FifoBuffer.{
  FifoBuffer, fifobuffer_create, fifobuffer_get_free, fifobuffer_get_size, fifobuffer_enqueue,
  fifobuffer_dequeue,
}
use asterisk.Files.Registry.{same_name}
use asterisk.CString.Printf.{sprintf, string_at}
use asterisk.Pipe.{remove_first, is_empty}

abbrev pub socket_name_size : ℕ
socket_name_size = 64

abbrev pub socket_buffer_size : ℕ
socket_buffer_size = 500 * 1024

abbrev pub einval : ℕ
einval = 22

abbrev pub eaddrinuse : ℕ
eaddrinuse = 98

abbrev pub eisconn : ℕ
eisconn = 106

abbrev pub eperm : ℕ
eperm = 1

-- `name` is what is in `custom_socket`, and `accepts` the bit SO_ACCEPTCONN of `opts`. The outgoing
-- buffer and the thread are not read but for the thread to wake.
pub record Socket : Type 0 where
  pub buffer_in : FifoBuffer
  pub disconnected : Bool
  pub connection : Option ℕ
  pub domain : ℕ
  pub last_thread : ℕ
  pub accepts : Bool
  pub accept_queue : List ℕ
  pub custom_socket : Option (List ℕ)

-- A thread that is resumed if it waits in the call.
pub data Wake : Type 0 where
  in_accept : ℕ → Wake
  in_send : ℕ → Wake
  in_recv : ℕ → Wake

pub record Net : Type 0 where
  pub g_socket_list : List ℕ
  pub sockets : ℕ → Socket
  pub wakes : List Wake

-- What a try of a call leaves: a result, a wait, or a fault.
pub data Try {ℓ} (A : Type ℓ) : Type ℓ where
  returned : A → Net → Try A
  waits : Net → Try A
  faulted : Try A

abbrev pub with_socket : Net → ℕ → Socket → Net
with_socket n s x = record n { sockets = λ a. if a == s then x else n.sockets a }

abbrev pub woken : Net → Wake → Net
woken n w = record n { wakes = n.wakes ++ (w ∷ []) }

-- `socket_create`, the domain, and what `socket_fs_open` does, at the address that kmalloc
-- returned.
abbrev pub new_socket : (domain thread : ℕ) → Socket
new_socket domain thread = record {
  buffer_in = fifobuffer_create socket_buffer_size;
  disconnected = false;
  connection = none;
  domain = domain;
  last_thread = thread;
  accepts = false;
  accept_queue = [];
  custom_socket = if domain == 1 then some [] else none;
}

unfoldable pub socket_create : Net → (address domain thread : ℕ) → Net
socket_create n address domain thread = record (with_socket n address (new_socket domain thread)) {
  g_socket_list = n.g_socket_list ++ (address ∷ []);
}

-- `fd` is what fs_open_for_process comes to; without a descriptor it closes and frees the socket
-- again.
unfoldable pub syscall_socket :
    Net → (address : ℕ) → (domain thread : ℕ) → (fd : Option ℕ) → ℤ × Net
syscall_socket n address domain thread none = (neg eperm, n)
syscall_socket n address domain thread (some fd) =
    if ltb domain 3 then (pos fd, socket_create n address domain thread) else (neg eperm, n)

-- `socket_fs_close`, with `socket_destroy`
unfoldable pub socket_fs_close : Net → ℕ → Net
socket_fs_close n s = elim (n.sockets s).connection [
  | none ↦ record n { g_socket_list = remove_first n.g_socket_list s }
  | some other ↦
      record (with_socket n other
        (record (n.sockets other) { connection = none; disconnected = true })) {
          g_socket_list = remove_first n.g_socket_list s;
        }
]

-- The first socket with the name; the outer `none` is the access through a null `custom_socket`.
unfoldable pub find_name : (ℕ → Socket) → List ℕ → List ℕ → Option (Option ℕ)
find_name sockets [] name = some none
find_name sockets (s ∷ rest) name = elim (sockets s).custom_socket [
  | none ↦ none
  | some own ↦ elim (same_name name own) [
    | true ↦ some (some s)
    | false ↦ find_name sockets rest name
  ]
]

abbrev pub name_of : Option (List ℕ) → List ℕ
name_of none = []
name_of (some name) = name

-- The name is the format of sprintf, and `name` are its bytes before the terminator.
unfoldable pub unixsocket_bind : Net → ℕ → List ℕ → Try ℤ
unixsocket_bind n s name =
    elim (is_empty (name_of (n.sockets s).custom_socket) && not (is_empty name)) [
      | false ↦ returned (neg einval) n
      | true ↦ elim (find_name n.sockets n.g_socket_list name) [
        | none ↦ faulted
        | some (some taken) ↦ returned (neg eaddrinuse) n
        | some none ↦ elim (sprintf socket_name_size socket_name_size (name ++ (0 ∷ [])) []) [
          | none ↦ faulted
          | some out ↦
              returned (pos 0)
                (with_socket n s (record (n.sockets s) { custom_socket = string_at out }))
        ]
      ]
    ]

unfoldable pub unixsocket_listen : Net → ℕ → Net
unixsocket_listen n s = with_socket n s (record (n.sockets s) { accepts = true })

-- The part of connect before it waits.
unfoldable pub unixsocket_connect_start : Net → ℕ → List ℕ → Try ℤ
unixsocket_connect_start n s [] = returned (neg einval) n
unixsocket_connect_start n s (c ∷ name) = elim (n.sockets s).connection [
  | some other ↦ returned (neg eisconn) n
  | none ↦ elim (find_name n.sockets n.g_socket_list (c ∷ name)) [
    | none ↦ faulted
    | some none ↦ returned (neg 1) n
    | some (some l) ↦
        if (n.sockets l).accepts
        then waits (
            woken
              (with_socket n l
                (record (n.sockets l) { accept_queue = (n.sockets l).accept_queue ++ (s ∷ []) }))
              (in_accept (n.sockets l).last_thread))
        else returned (neg 1) n
  ]
]

-- A round of its wait.
unfoldable pub unixsocket_connect_round : Net → ℕ → Try ℤ
unixsocket_connect_round n s = elim (n.sockets s).connection [
  | some other ↦ returned (pos 0) n
  | none ↦ waits n
]

-- The new socket and the other end are connected with each other.
abbrev pub connect_both : Net → (new other : ℕ) → Net
connect_both n new other =
    let n' = with_socket n new (record (n.sockets new) { connection = some other }) in
    with_socket n' other (record (n'.sockets other) { connection = some new })

-- `address` and `fd` are those of the socket that it makes. A socket whose turn it is without a
-- descriptor for it is forgotten.
unfoldable pub unixsocket_accept_try : Net → ℕ → (address thread : ℕ) → (fd : Option ℕ) → Try ℤ
unixsocket_accept_try n s address thread fd = elim (n.sockets s).accepts [
  | false ↦ returned (neg einval) n
  | true ↦ elim (n.sockets s).accept_queue [
    | [] ↦ waits n
    | other ∷ rest ↦
        let n' = with_socket n s (record (n.sockets s) { accept_queue = rest }) in
        let (result, n'') = syscall_socket n' address (n.sockets s).domain thread fd in
        elim result [
          | negsuc e ↦ waits n''
          | pos d ↦ returned (pos d) (connect_both n'' address other)
        ]
  ]
]

unfoldable pub unixsocket_send_try : Net → ℕ → List ℕ → Try ℤ
unixsocket_send_try n s [] = returned (neg 1) n
unixsocket_send_try n s (b ∷ bytes) = elim (n.sockets s).connection [
  | none ↦ returned (neg 1) n
  | some other ↦
      let x = n.sockets other in
      let free = fifobuffer_get_free x.buffer_in in
      if ltb 0 free
      then (let (written, buffer) =
            fifobuffer_enqueue x.buffer_in (take (min free (suc (length bytes))) (b ∷ bytes)) in
          returned written
            (woken (with_socket n other (record x { buffer_in = buffer })) (in_recv x.last_thread)))
      else waits n
]

-- The result has the bytes that are read.
unfoldable pub unixsocket_recv_try : Net → ℕ → (len : ℕ) → Try (ℤ × List ℕ)
unixsocket_recv_try n s zero = returned (neg 1, []) n
unixsocket_recv_try n s (suc len) = elim (n.sockets s).disconnected [
  | true ↦ returned (pos 0, []) n
  | false ↦
      let x = n.sockets s in
      let size = fifobuffer_get_size x.buffer_in in
      elim (ltb 0 size) [
        | false ↦ waits n
        | true ↦ elim x.connection [
          | none ↦ faulted
          | some other ↦
              let (read, out, buffer) = fifobuffer_dequeue x.buffer_in (min size (suc len)) in
              returned (read, out)
                (woken (with_socket n s (record x { buffer_in = buffer }))
                  (in_send (n.sockets other).last_thread))
        ]
      ]
]
