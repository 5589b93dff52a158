-- ===== src/Net/Server.antt =====
-- TcpServer of xx_chat_server/src/net/tcp_server.h and tcp_server.cpp, and TcpClient of tcp_client.h
-- and tcp_client.cpp, in one thread.
-- What the loop of a connection does is done at once. `none` is a failed assert. The addresses of both
-- ends are texts that are arguments.
use xx_chat.Base.{
  ℕ, zero, suc, ◌+◌, Bool, true, false, not, ◌&&◌, Option, none, some, List, [], ◌∷◌, ◌++◌, length,
  ◌==◌, if◌then◌else◌,
}
use xx_chat.Base.Options.{◌>>=◌, ◌>>◌, assert, found}
use xx_chat.Http.{digits}
use xx_chat.Net.Loop.{EventLoopThreadPool, start, get_next_loop}
use xx_chat.Net.Tcp.{TcpConnection, connect_established, connect_destroyed, shutdown, force_close}
use xx_chat.Net.Connector.{Connector, Acceptor}
use xx_chat.Net.Connector

abbrev pub same_text : List ℕ → List ℕ → Bool
same_text [] [] = true
same_text [] (y ∷ ys) = false
same_text (x ∷ xs) [] = false
same_text (x ∷ xs) (y ∷ ys) = (x == y) && same_text xs ys

pub record TcpServer : Type 0 where
  pub name : List ℕ
  pub ip_port : List ℕ
  pub acceptor : Acceptor
  pub thread_pool : EventLoopThreadPool
  pub started : Bool
  pub next_conn_id : ℕ
  pub connections : List (List ℕ × TcpConnection)

-- `new_loops`: the loops of the threads that are started. A second start does nothing.
unfoldable pub start_server : TcpServer → List ℕ → Option TcpServer
unfolding start Connector.listen
start_server s new_loops =
    if s.started
    then some s
    else (start s.thread_pool new_loops >>= λ pool.
        assert (not s.acceptor.listening)
        >> some (record s {
          started = true;
          thread_pool = pool;
          acceptor = Connector.listen s.acceptor;
        }))

-- snprintf into a buffer of 64 bytes.
abbrev pub at_most : ℕ → List ℕ → List ℕ
at_most zero xs = []
at_most (suc n) [] = []
at_most (suc n) (x ∷ xs) = x ∷ at_most n xs

-- "name-ip:port#id"
unfoldable pub connection_name : TcpServer → List ℕ
unfolding digits
connection_name s = s.name ++ at_most 63 (45 ∷ s.ip_port ++ 35 ∷ digits 10 s.next_conn_id)

-- `map[name] = conn`
abbrev pub put_connection :
    List ℕ → TcpConnection → List (List ℕ × TcpConnection) → List (List ℕ × TcpConnection)
put_connection name conn [] = (name, conn) ∷ []
put_connection name conn ((other, c) ∷ rest) =
    let more = put_connection name conn rest in
    if same_text name other then (name, conn) ∷ rest else (other, c) ∷ more

abbrev pub erase_connection : List ℕ → List (List ℕ × TcpConnection) → List (List ℕ × TcpConnection)
erase_connection name [] = []
erase_connection name ((other, c) ∷ rest) =
    let more = erase_connection name rest in
    if same_text name other then rest else (other, c) ∷ more

-- `conn`: the new TcpConnection. The result has the loop it is given.
unfoldable pub new_connection : TcpServer → TcpConnection → Option (ℕ × TcpServer)
unfolding get_next_loop connection_name connect_established
new_connection s conn = do
  (io_loop, pool) ← get_next_loop s.thread_pool
  up ← connect_established conn
  some (
    io_loop,
    record s {
      thread_pool = pool;
      next_conn_id = s.next_conn_id + 1;
      connections = put_connection (connection_name s) up s.connections;
    },
  )

-- The connection is destroyed in its loop.
unfoldable pub remove_connection :
    TcpServer → List ℕ → TcpConnection → Option (TcpServer × TcpConnection)
unfolding connect_destroyed
remove_connection s name conn = do
  let rest = erase_connection name s.connections
  assert (length rest + 1 == length s.connections)
  gone ← connect_destroyed conn
  some (record s { connections = rest }, gone)

-- The destructor.
unfoldable pub destroy_all : List (List ℕ × TcpConnection) → Option (List TcpConnection)
unfolding connect_destroyed
destroy_all [] = some []
destroy_all ((name, conn) ∷ rest) = do
  gone ← connect_destroyed conn
  others ← destroy_all rest
  some (gone ∷ others)

unfoldable pub destroy_server : TcpServer → Option (List TcpConnection)
unfolding destroy_all
destroy_server s = destroy_all s.connections

pub record TcpClient : Type 0 where
  pub connector : Connector
  pub connection : Option TcpConnection
  pub connect_ : Bool
  pub next_conn_id : ℕ

-- `sockfd`, `flag`: the descriptor, and the outcome of connect.
unfoldable pub connect : TcpClient → (sockfd flag : ℕ) → Option TcpClient
unfolding Connector.start
connect c sockfd flag = Connector.start c.connector sockfd flag >>= λ k.
    some (record c { connect_ = true; connector = k })

unfoldable pub disconnect : TcpClient → TcpClient
unfolding shutdown
disconnect c = record c {
  connect_ = false;
  connection = found c.connection none (λ conn. some (shutdown conn true));
}

unfoldable pub stop : TcpClient → Option TcpClient
unfolding Connector.stop
stop c = Connector.stop c.connector >>= λ k. some (record c { connect_ = false; connector = k })

unfoldable pub client_connection : TcpClient → TcpConnection → Option TcpClient
unfolding connect_established
client_connection c conn = connect_established conn >>= λ up.
    some (record c { connection = some up; next_conn_id = c.next_conn_id + 1 })

-- `is_own`: whether the connection that has closed is the client's. It is destroyed by a functor of the
-- loop.
unfoldable pub remove_client_connection : TcpClient → Bool → Option (TcpClient × TcpConnection)
unfolding connect_destroyed
remove_client_connection c is_own = found c.connection none (λ conn.
    assert is_own
    >> (connect_destroyed conn >>= λ gone. some (record c { connection = none }, gone)))

-- The destructor; `unique`: whether nobody else has the connection. Its new close callback is left out.
unfoldable pub destroy_client : TcpClient → Bool → Option TcpClient
unfolding Connector.stop force_close
destroy_client c unique =
    found c.connection (stop c)
      (λ conn. some (if unique then record c { connection = some (force_close conn) } else c))
