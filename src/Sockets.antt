-- ===== src/Sockets.antt =====
-- The sockets of xx_chat_server/src/base: base_socket.h, base_socket.cpp, and the calls of net_lib.cpp
-- on a handle.
-- A socket is an object at an address, shared by the table and by a loop that is calling it. The
-- kernel's answers are arguments; what is asked of the kernel and of epoll is recorded in `calls`, the
-- newest first. Callbacks are numbers, and `run` says what they do. `none` is the exception of a
-- callback that is not set. An int stands for its bit pattern of 32 bits. The options of a socket
-- that cannot change its state (SetNonblock and others) are left out, and so are the branches of
-- Windows.
pub mod Handles
pub mod Timers
pub mod Dispatch
mod Tests
use xx_chat.Base.{
  ℕ, zero, suc, ◌+◌, ◌-◌, ◌/◌, ◌%◌, ◌^◌, Bool, true, false, not, ◌&&◌, ◌||◌, Option, none, some,
  List, [], ◌∷◌, ◌++◌, length, ltb, leb, ◌==◌, if◌then◌else◌, lookup, put, insert, update, erase,
}
use xx_chat.Base.Options.{◌>>=◌, found}

pub data SocketState : Type 0 where
  idle listening connecting connected closing : SocketState

abbrev pub number : SocketState → ℕ
number idle = 0
number listening = 1
number connecting = 2
number connected = 3
number closing = 4

pub data Message : Type 0 where
  msg_connect msg_confirm msg_read msg_write msg_close : Message

pub record BaseSocket : Type 0 where
  pub socket : ℕ
  pub state : SocketState
  pub local_ip : List ℕ
  pub local_port : ℕ
  pub remote_ip : List ℕ
  pub remote_port : ℕ
  pub new_connection_callback : Option ℕ
  pub message_callback : Option ℕ

-- What the kernel and epoll are asked.
pub data SystemCall : Type 0 where
  add_event : ℕ → SystemCall
  remove_event : ℕ → SystemCall
  close_socket : ℕ → SystemCall
  send_bytes : ℕ → List ℕ → SystemCall
  set_option : ℕ → ℕ → ℕ → SystemCall

pub record System : Type 0 where
  pub store : List (ℕ × BaseSocket)
  pub socket_map : List (ℕ × ℕ)
  pub next : ℕ
  pub calls : List SystemCall

-- What a callback does, by its number, on a message of a handle.
abbrev pub Run : Type 0
Run = ℕ → Message → ℕ → System → Option System

abbrev pub netlib_ok : ℕ
netlib_ok = 0

abbrev pub netlib_error : ℕ
netlib_error = 2 ^ 32 - 1

abbrev pub invalid_socket : ℕ
invalid_socket = 2 ^ 32 - 1

abbrev pub socket_error : ℕ
socket_error = 2 ^ 32 - 1

abbrev pub in_progress : ℕ
in_progress = 115

abbrev pub would_block : ℕ
would_block = 11

abbrev pub new_base_socket : BaseSocket
new_base_socket = record {
  socket = invalid_socket;
  state = idle;
  local_ip = [];
  local_port = 0;
  remote_ip = [];
  remote_port = 0;
  new_connection_callback = none;
  message_callback = none;
}

abbrev pub is : BaseSocket → SocketState → Bool
is s t = number s.state == number t

abbrev pub asked : System → SystemCall → System
asked sys c = record sys { calls = c ∷ sys.calls }

-- The object at an address.
unfoldable pub object : System → ℕ → BaseSocket
object sys a = found (lookup a sys.store) new_base_socket (λ s. s)

abbrev pub assign : System → ℕ → (BaseSocket → BaseSocket) → System
assign sys a f = record sys { store = update a f sys.store }

-- `std::make_shared<BaseSocket>()`
unfoldable pub make_shared : System → BaseSocket → System × ℕ
make_shared sys s = (record sys { store = put sys.next s sys.store; next = sys.next + 1 }, sys.next)

unfoldable pub add_base_socket : System → ℕ → System
unfolding object
add_base_socket sys a = record sys { socket_map = insert (object sys a).socket a sys.socket_map }

unfoldable pub remove_base_socket : System → ℕ → System
unfolding object
remove_base_socket sys a = record sys { socket_map = erase (object sys a).socket sys.socket_map }

unfoldable pub find_base_socket : System → ℕ → Option ℕ
find_base_socket sys fd = lookup fd sys.socket_map

-- The kernel's answer to a call: its result, and errno.
pub record Reply : Type 0 where
  pub result : ℕ
  pub errno : ℕ

abbrev pub is_block : ℕ → Bool
is_block errno = (errno == in_progress) || (errno == would_block)

-- `fd`, `bound`, `listens`: what socket, bind and listen return.
unfoldable pub listen : System → ℕ → List ℕ → ℕ → ℕ → (fd : ℕ) (bound listens : Reply) → System × ℕ
unfolding add_base_socket
listen sys a ip port callback fd bound listens =
    let sys1 = assign sys a (λ s. record s {
      local_ip = ip;
      local_port = port;
      new_connection_callback = some callback;
      socket = fd;
    }) in
    if fd == invalid_socket
    then (sys1, netlib_error)
    else if (bound.result == socket_error) || (listens.result == socket_error)
    then (asked sys1 (close_socket fd), netlib_error)
    else (
      asked (add_base_socket (assign sys1 a (λ s. record s { state = listening })) a)
          (add_event fd),
      netlib_ok,
    )

unfoldable pub connect : System → ℕ → List ℕ → ℕ → ℕ → (fd : ℕ) (connects : Reply) → System × ℕ
unfolding add_base_socket
connect sys a ip port callback fd connects =
    let sys1 = assign sys a (λ s. record s {
      remote_ip = ip;
      remote_port = port;
      message_callback = some callback;
      socket = fd;
    }) in
    if fd == invalid_socket
    then (sys1, netlib_error)
    else if (connects.result == socket_error) && not (is_block connects.errno)
    then (asked sys1 (close_socket fd), netlib_error)
    else (
      asked (add_base_socket (assign sys1 a (λ s. record s { state = connecting })) a)
          (add_event fd),
      fd,
    )

unfoldable pub send : System → ℕ → List ℕ → Reply → System × ℕ
unfolding object
send sys a buf reply = if not (is (object sys a) connected) then (sys, netlib_error) else (
  asked sys (send_bytes (object sys a).socket buf),
  if (reply.result == socket_error) && is_block reply.errno then 0 else reply.result,
)

unfoldable pub close : System → ℕ → System × ℕ
unfolding object remove_base_socket
close sys a =
    let fd = (object sys a).socket in
    (asked (remove_base_socket (asked sys (remove_event fd)) a) (close_socket fd), 0)

-- A call of messageCallback_.
unfoldable pub message : Run → System → ℕ → Message → Option System
unfolding object
message run sys a msg =
    found (object sys a).message_callback none (λ k. run k msg (object sys a).socket sys)

-- A connection that accept returns: its descriptor, and the address and port of the peer in the
-- byte order of the host.
pub record Accepted : Type 0 where
  pub fd : ℕ
  pub ip : ℕ
  pub port : ℕ

-- "%d" of a byte.
abbrev pub decimal : ℕ → List ℕ
decimal n =
    if ltb n 10
    then (48 + n) ∷ []
    else if ltb n 100
    then (48 + n / 10) ∷ (48 + n % 10) ∷ []
    else (48 + n / 100) ∷ (48 + n / 10 % 10) ∷ (48 + n % 10) ∷ []

abbrev pub ip_string : ℕ → List ℕ
ip_string ip =
    decimal (ip / 2 ^ 24)
    ++ 46 ∷ decimal (ip / 2 ^ 16 % 2 ^ 8)
    ++ 46 ∷ decimal (ip / 2 ^ 8 % 2 ^ 8)
    ++ 46 ∷ decimal (ip % 2 ^ 8)

-- The object for an accepted connection, in the table and watched.
unfoldable pub accepted : System → Accepted → System
unfolding make_shared add_base_socket
accepted sys p =
    let (sys1, b) = make_shared sys (record new_base_socket {
      socket = p.fd;
      state = connected;
      remote_ip = ip_string p.ip;
      remote_port = p.port;
    }) in
    asked (add_base_socket sys1 b) (add_event p.fd)

-- The connections that wait to be accepted, one after the other.
unfoldable pub accept_new_socket : Run → System → ℕ → List Accepted → Option System
unfolding object accepted
accept_new_socket run sys a [] = some sys
accept_new_socket run sys a (p ∷ ps) =
    found (object sys a).new_connection_callback none
      (λ k. run k msg_connect p.fd (accepted sys p) >>= λ sys'. accept_new_socket run sys' a ps)

-- `avail`: what ioctl says that can be read, `none` if it fails.
unfoldable pub on_read : Run → System → ℕ → Option ℕ → List Accepted → Option System
unfolding object accept_new_socket message
on_read run sys a avail pending =
    if is (object sys a) listening
    then accept_new_socket run sys a pending
    else message run sys a (found avail msg_close (λ n. if n == 0 then msg_close else msg_read))

-- `error`: SO_ERROR of the descriptor.
unfoldable pub on_write : Run → System → ℕ → ℕ → Option System
unfolding object message
on_write run sys a error =
    if is (object sys a) connecting
    then (if not (error == 0)
        then message run sys a msg_close
        else message run (assign sys a (λ s. record s { state = connected })) a msg_confirm)
    else message run sys a msg_write

unfoldable pub on_close : Run → System → ℕ → Option System
unfolding message
on_close run sys a = message run (assign sys a (λ s. record s { state = closing })) a msg_close
