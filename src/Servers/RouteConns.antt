-- ===== src/Servers/RouteConns.antt =====
-- The connections of the message server to the route servers, and the master among them:
-- xx_chat_server/src/msg_server/route_server_conn.h and route_server_conn.cpp.
-- A connection is known by its address; `conns` has the objects, which are kept. What is sent is
-- recorded in `sent`, and the handles that netlib_close gets in `closed`, the newest first. The clock
-- and the handles are arguments.
use xx_chat.Base.{
  ℕ, ◌+◌, ◌%◌, ◌^◌, Bool, true, false, Option, none, some, List, [], ◌∷◌, get_elem?, set, ltb, ◌==◌,
  if◌then◌else◌, lookup, put, insert, erase,
}
use xx_chat.Base.Options.{◌>>=◌, found}
use xx_chat.Servers.{ServInfo, check_one, serv_reset, send_to_all, update_master_route_serv_conn}

pub record RouteServConn : Type 0 where
  pub handle : ℕ
  pub server_index : ℕ
  pub opened : Bool
  pub connect_time : ℕ
  pub last_send_tick : ℕ
  pub last_recv_tick : ℕ

-- What SendPdu gets: a heartbeat, the users that are online with their states, or a message.
pub data Pdu : Type 0 where
  heart_beat : Pdu
  online_user_info : List (ℕ × ℕ) → Pdu
  message : ℕ → Pdu

pub record State : Type 0 where
  pub conns : List (ℕ × RouteServConn)
  pub server_list : List (ServInfo ℕ)
  pub conn_map : List (ℕ × ℕ)
  pub master : Option ℕ
  pub sent : List (ℕ × Pdu)
  pub closed : List ℕ

abbrev pub invalid_handle : ℕ
invalid_handle = 4294967295

abbrev pub is_open : List (ℕ × RouteServConn) → ℕ → Bool
is_open conns a = found (lookup a conns) false (λ c. c.opened)

abbrev pub get_connect_time : List (ℕ × RouteServConn) → ℕ → ℕ
get_connect_time conns a = found (lookup a conns) 0 (λ c. c.connect_time)

unfoldable pub update_master : State → State
update_master s = record s {
  master = update_master_route_serv_conn (is_open s.conns) (get_connect_time s.conns) s.server_list;
}

unfoldable pub send_pdu : ℕ → RouteServConn → ℕ → Pdu → State → State
send_pdu a c now p s = record s {
  conns = put a (record c { last_send_tick = now }) s.conns;
  sent = (a, p) ∷ s.sent;
}

-- `Connect` of a new object at the address `a`.
unfoldable pub connect : ℕ → (handle server_index now : ℕ) → State → State
connect a handle server_index now s =
    let c : RouteServConn = record {
      handle = handle;
      server_index = server_index;
      opened = false;
      connect_time = 0;
      last_send_tick = now;
      last_recv_tick = now;
    } in
    let s' = record s { conns = put a c s.conns } in
    if handle == invalid_handle then s' else record s' { conn_map = insert handle a s.conn_map }

-- One server in serv_check_reconnect; `a`: the address of a new object, if there is to be one.
unfoldable pub check_server : (a handle i now : ℕ) → State → State
unfolding check_one
check_server a handle i now s = found (get_elem? s.server_list i) s (λ server.
    let due = found server.serv_conn (ltb server.reconnect_cnt server.idle_cnt) (λ c. false) in
    let s' = if due then connect a handle i now s else s in
    record s' { server_list = set s.server_list i (check_one (λ ip port j. a) server i) })

-- The loop over the servers from an index on, with an address and a handle for each.
unfoldable pub check_servers : ℕ → List (ℕ × ℕ) → ℕ → State → State
check_servers i [] now s = s
check_servers i ((a, handle) ∷ more) now s =
    check_servers (i + 1) more now (check_server a handle i now s)

-- The statements of Close before the test of the master.
unfoldable pub shut : ℕ → RouteServConn → State → State
shut a c s = record s {
  server_list = serv_reset s.server_list c.server_index;
  conns = put a (record c { opened = false }) s.conns;
  conn_map = if c.handle == invalid_handle then s.conn_map else erase c.handle s.conn_map;
  closed = if c.handle == invalid_handle then s.closed else c.handle ∷ s.closed;
}

unfoldable pub close : ℕ → RouteServConn → State → State
close a c s =
    let s' = shut a c s in if found s.master false (λ m. m == a) then update_master s' else s'

-- The first statements of OnConfirm; `at` throws for an index out of range.
unfoldable pub confirm : ℕ → RouteServConn → ℕ → State → Option State
confirm a c now s = found (get_elem? s.server_list c.server_index) none (λ server. some (record s {
  conns = put a (record c { opened = true; connect_time = now }) s.conns;
  server_list = set s.server_list c.server_index (record server { reconnect_cnt = 2 });
}))

-- `online`: what GetOnlineUserInfo gives.
unfoldable pub on_confirm : ℕ → RouteServConn → ℕ → List (ℕ × ℕ) → State → Option State
on_confirm a c now online s = confirm a c now s >>= λ s'. some (
    send_pdu a (record c { opened = true; connect_time = now }) now (online_user_info online)
      (found s'.master (update_master s') (λ m. s')))

unfoldable pub on_timer : ℕ → ℕ → RouteServConn → State → State
on_timer curr_tick a c s =
    let beats = ltb ((c.last_send_tick + 5000) % 2 ^ 64) curr_tick in
    let s' = if beats then send_pdu a c curr_tick heart_beat s else s in
    let c' : RouteServConn = if beats then record c { last_send_tick = curr_tick } else c in
    if ltb ((c.last_recv_tick + 30000) % 2 ^ 64) curr_tick then close a c' s' else s'

-- The loop of route_server_conn_timer_callback over a copy of the map's connections.
unfoldable pub on_timers : ℕ → List (ℕ × ℕ) → State → State
on_timers curr_tick [] s = s
on_timers curr_tick ((h, a) ∷ more) s =
    on_timers curr_tick more (found (lookup a s.conns) s (λ c. on_timer curr_tick a c s))

-- route_server_conn_timer_callback
unfoldable pub timer_callback : ℕ → List (ℕ × ℕ) → State → State
unfolding on_timers check_servers
timer_callback curr_tick fresh s =
    check_servers 0 fresh curr_tick (on_timers curr_tick s.conn_map s)

unfoldable pub send_each : List ℕ → ℕ → ℕ → State → State
send_each [] now p s = s
send_each (a ∷ more) now p s =
    send_each more now p (found (lookup a s.conns) s (λ c. send_pdu a c now (message p) s))

unfoldable pub send_to_all_route_server : ℕ → ℕ → State → State
send_to_all_route_server now p s = send_each (send_to_all (is_open s.conns) s.server_list) now p s
