-- ===== src/Servers/Tests.antt =====
-- The theorems on lists of servers at concrete values. A connection is the number of its server.
use xx_chat.Base.{
  ℕ, true, false, min, ◌+◌, ◌-◌, ◌^◌, ◌≤◌, ◌<◌, lookup, put, insert, place, update, ◌≡◌, ◌++◌, refl,
  Bool, List, [], ◌∷◌, none, some, length, take, drop, ◌==◌, arith,
}
use xx_chat.Servers.RouteConns
use xx_chat.Servers.RouteConns.{
  RouteServConn, online_user_info, on_confirm, confirm, check_server, send_pdu, update_master,
  close, is_open, get_connect_time,
}
use xx_chat.Servers.Master.{
  checks, confirms, closes, Run, stops, goes, MasterIsOpen, run-MasterIsOpen,
}
use xx_chat.Servers.Oldest.{update_master_lem}
use xx_chat.Servers.{open_conn, check_one, oldest, update_master_route_serv_conn}
use xx_chat.Servers.{serv_reset, ServInfo, get_db_serv_conn_for_login, get_db_serv_conn}
use xx_chat.Servers.Backoff.{ticks, resets, reconnect_lem}
use xx_chat.Servers.Conns.{ServConn, State, db_on_timer, login_on_timer, db_on_timer_lem}
use xx_chat.Servers.Pick.{first_open, get_db_serv_conn_lem}

abbrev server : ServInfo ℕ
server = record {
  server_ip = [];
  server_port = 80;
  idle_cnt = 0;
  reconnect_cnt = 2;
  serv_conn = some 0;
}

abbrev connect : List ℕ → ℕ → ℕ → ℕ
connect ip port i = i

reconnect_lem_example :
    ((ticks connect 5 9 (resets connect 2 server)).serv_conn ≡ none)
    × ((ticks connect 5 (min 64 (2 ^ (1 + 2)) + 2) (resets connect 2 server)).serv_conn ≡ some 5)
reconnect_lem_example = reconnect_lem connect 5 1 9 server refl (omega arith)

abbrev servers : List (ServInfo ℕ)
servers =
    record server { serv_conn = none }
    ∷ record server { serv_conn = some 1 }
    ∷ record server { serv_conn = some 2 }
    ∷ []

abbrev is_two : ℕ → Bool
is_two c = c == 2

get_db_serv_conn_lem_example :
    (get_db_serv_conn_for_login is_two servers 2 (length servers)
      ≡ some (first_open is_two servers))
    × (get_db_serv_conn is_two servers 2 (length servers)
        ≡ some (first_open is_two (drop 2 servers ++ take 2 servers)))
get_db_serv_conn_lem_example = get_db_serv_conn_lem is_two servers 2 (omega arith)

-- A connection from which nothing has come since the time 0.
abbrev silent : ServConn
silent = record {
  handle = 5;
  server_index = 0;
  opened = true;
  connect_time = 0;
  last_send_tick = 0;
  last_recv_tick = 0;
}

abbrev state : State
state = record {
  server_list =
      record {
        server_ip = [];
        server_port = 80;
        idle_cnt = 0;
        reconnect_cnt = 2;
        serv_conn = some silent;
      }
      ∷ [];
  conn_map = (5, silent) ∷ [];
}

db_on_timer_lem_example :
    ((db_on_timer 40000 silent state).1 ≡ state)
    × ((login_on_timer 40000 silent state).1.server_list ≡ serv_reset state.server_list 0)
db_on_timer_lem_example =
    db_on_timer_lem 40000 silent state (omega arith) (omega arith) (omega arith)

-- One server of route_server, which is connected to, confirms and is closed.
abbrev idle : RouteConns.State
idle = record {
  conns = [];
  server_list = record server { idle_cnt = 9; serv_conn = none } ∷ [];
  conn_map = [];
  master = none;
  sent = [];
  closed = [];
}

abbrev fresh : RouteServConn
fresh = record {
  handle = 7;
  server_index = 0;
  opened = false;
  connect_time = 0;
  last_send_tick = 1;
  last_recv_tick = 1;
}

abbrev confirmed_conn : RouteServConn
confirmed_conn = record fresh { opened = true; connect_time = 2; last_send_tick = 2 }

abbrev listed : ServInfo ℕ
listed = record server { idle_cnt = 10; serv_conn = some 5 }

abbrev confirmed : RouteConns.State
confirmed = record {
  conns = (5, confirmed_conn) ∷ [];
  server_list = listed ∷ [];
  conn_map = (7, 5) ∷ [];
  master = some 5;
  sent = (5, online_user_info []) ∷ [];
  closed = [];
}

is_confirmed : on_confirm 5 fresh 2 [] (check_server 5 7 0 1 idle) ≡ some confirmed
unfolding on_confirm check_server confirm check_one RouteConns.connect send_pdu update_master
    update_master_route_serv_conn oldest put insert lookup place update
is_confirmed = refl

is_fresh : lookup 5 (check_server 5 7 0 1 idle).conns ≡ some fresh
unfolding check_server check_one RouteConns.connect put insert lookup place
is_fresh = refl

is_listed : lookup 5 confirmed.conns ≡ some confirmed_conn
unfolding lookup
is_listed = refl

is_unused : lookup 5 idle.conns ≡ none
unfolding lookup
is_unused = refl

opens_and_closes : Run idle (close 5 confirmed_conn confirmed)
opens_and_closes = goes _ _ _ (checks idle 5 7 0 1 is_unused) (
    goes _ _ _ (confirms _ confirmed 5 fresh 2 [] is_fresh is_confirmed)
      (goes _ _ _ (closes confirmed 5 confirmed_conn is_listed) (stops _)))

run-MasterIsOpen_example : MasterIsOpen (close 5 confirmed_conn confirmed)
run-MasterIsOpen_example =
    run-MasterIsOpen idle (close 5 confirmed_conn confirmed) opens_and_closes
      (record { master_open = λ m e. absurd cc })

is_open_conn : open_conn (is_open confirmed.conns) listed ≡ some 5
unfolding lookup
is_open_conn = refl

small_time : get_connect_time confirmed.conns 5 < 2 ^ 64 - 1
unfolding lookup
small_time = omega arith

update_master_lem_example :
    (m : ℕ) × ((update_master confirmed).master ≡ some m)
    × (is_open confirmed.conns m ≡ true)
    × (get_connect_time confirmed.conns m ≤ get_connect_time confirmed.conns 5)
update_master_lem_example = update_master_lem confirmed 0 listed 5 refl is_open_conn small_time
