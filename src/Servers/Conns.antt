-- ===== src/Servers/Conns.antt =====
-- The connections of the message server to the other servers: DBServConn and LoginServConn of
-- xx_chat_server/src/msg_server/db_server_conn.cpp and login_server_conn.cpp.
-- Each class has its own list of servers and map of connections. The clock and the handle that
-- netlib_connect gives are parameters.
use xx_chat.Base.{
  ℕ, ◌+◌, ◌%◌, ◌^◌, ◌≤◌, ◌<◌, ◌≡◌, refl, ap, ◌∙◌, Bool, true, false, Option, none, some, List, [],
  ◌∷◌, get_elem?, set, ltb, ◌==◌, if◌then◌else◌, if_cases, arith, insert, update, erase, lt→ltb,
  le→ltb,
}
use xx_chat.Base.Options.{found}
use xx_chat.Servers.{ServInfo, serv_reset}

pub record ServConn : Type 0 where
  pub handle : ℕ
  pub server_index : ℕ
  pub opened : Bool
  pub connect_time : ℕ
  pub last_send_tick : ℕ
  pub last_recv_tick : ℕ

pub record State : Type 0 where
  pub server_list : List (ServInfo ServConn)
  pub conn_map : List (ℕ × ServConn)

abbrev pub invalid_handle : ℕ
invalid_handle = 4294967295

-- `Connect`: a connection without a handle is in no map.
unfoldable pub connect : ServConn → ℕ → ℕ → State → ServConn × State
connect c handle server_index s =
    let c' = record c { server_index = server_index; handle = handle } in
    (
      c',
      if handle == invalid_handle then s else record s { conn_map = insert handle c' s.conn_map },
    )

-- `Close` of DBServConn and LoginServConn.
unfoldable pub close : ServConn → State → State
close c s =
    let s' = record s { server_list = serv_reset s.server_list c.server_index } in
    if c.handle == invalid_handle then s' else record s' { conn_map = erase c.handle s'.conn_map }

-- OnConfirm of DBServConn leaves the list as it is.
unfoldable pub db_on_confirm : ServConn → State → ServConn × State
db_on_confirm c s = (record c { opened = true }, s)

-- The message MsgServInfo, with g_msg_server_ip_addr, g_msg_server_port and g_max_conn_cnt.
pub record Announcement : Type 0 where
  pub ip : List ℕ
  pub port : ℕ
  pub max_conn_cnt : ℕ
  pub cur_conn_cnt : ℕ
  pub host_name : List ℕ

-- OnConfirm of LoginServConn announces this server; `at` throws for an index out of range. `cur_conn_cnt`:
-- what GetUserConnCnt counts.
unfoldable pub login_on_confirm :
    (self : Announcement) (cur_conn_cnt now : ℕ)
    → ServConn
    → State
    → Option (ServConn × State × Announcement)
login_on_confirm self cur_conn_cnt now c s =
    found (get_elem? s.server_list c.server_index) none (λ server. some (
      record c { opened = true; last_send_tick = now },
      record s {
        server_list = set s.server_list c.server_index (record server { reconnect_cnt = 2 });
      },
      record self { cur_conn_cnt = cur_conn_cnt },
    ))

-- The loop of the timer callbacks over a copy of the map's connections, with the OnTimer of the class.
-- Each connection is written back, if it is still there.
unfoldable pub on_timers :
    (ServConn → State → ServConn × State × Bool) → List (ℕ × ServConn) → State → State
on_timers on_timer [] s = s
on_timers on_timer ((handle, c) ∷ more) s =
    let (c', s', sent) = on_timer c s in
    on_timers on_timer more (record s' { conn_map = update handle (λ d. c') s'.conn_map })

-- The heartbeat with which each OnTimer begins: SendPdu notes the time.
unfoldable pub beat : ℕ → ServConn → ServConn × Bool
beat curr_tick c =
    if ltb ((c.last_send_tick + 5000) % 2 ^ 64) curr_tick
    then (record c { last_send_tick = curr_tick }, true)
    else (c, false)

-- OnTimer: the connection after the heartbeat, the state, and whether a heartbeat is sent.
unfoldable pub db_on_timer : ℕ → ServConn → State → ServConn × State × Bool
db_on_timer curr_tick c s =
    let (c', sent) = beat curr_tick c in
    (c', if ltb ((c'.last_send_tick + 30000) % 2 ^ 64) curr_tick then close c' s else s, sent)

unfoldable pub login_on_timer : ℕ → ServConn → State → ServConn × State × Bool
login_on_timer curr_tick c s =
    let (c', sent) = beat curr_tick c in
    (c', if ltb ((c'.last_recv_tick + 30000) % 2 ^ 64) curr_tick then close c' s else s, sent)

-- The connection after the heartbeat.
record Beaten (now : ℕ) (c r : ServConn) : Type 0 where
  recent : now ≤ r.last_send_tick + 5000
  small : r.last_send_tick + 30000 < 2 ^ 64
  recv : r.last_recv_tick ≡ c.last_recv_tick
  index : r.server_index ≡ c.server_index

beat-Beaten :
    (now : ℕ) (c : ServConn)
    → now + 30000 < 2 ^ 64
    → c.last_send_tick + 30000 < 2 ^ 64
    → Beaten now c (beat now c).0
unfolding beat
beat-Beaten now c h k =
    if_cases (λ (r : ServConn × Bool). Beaten now c r.0)
      (ltb ((c.last_send_tick + 5000) % 2 ^ 64) now)
      (λ e. record { recent = omega arith; small = h; recv = refl; index = refl })
      (λ e. record { recent = ground (arith, e, k); small = k; recv = refl; index = refl })

close-server_list :
    (c : ServConn) (s : State) → (close c s).server_list ≡ serv_reset s.server_list c.server_index
unfolding close
close-server_list c s =
    if_cases (λ (r : State). r.server_list ≡ serv_reset s.server_list c.server_index)
      (c.handle == 4294967295) (λ e. refl) (λ e. refl)

-- For a server from which nothing has come for more than 30 seconds, at ticks that are far from the
-- end of their range: OnTimer of LoginServConn resets the server for the next connect, but that of
-- DBServConn leaves the list and the map as they are, whenever it last sent something.
pub db_on_timer_lem :
    (now : ℕ) (c : ServConn) (s : State)
    → now + 30000 < 2 ^ 64
    → c.last_send_tick + 30000 < 2 ^ 64
    → c.last_recv_tick + 30000 < now
    → ((db_on_timer now c s).1 ≡ s)
      × ((login_on_timer now c s).1.server_list ≡ serv_reset s.server_list c.server_index)
unfolding db_on_timer login_on_timer
db_on_timer_lem now c s h k old =
    let b = beat-Beaten now c h k in
    let r = (beat now c).0 in
    let not_late : ltb ((r.last_send_tick + 30000) % 2 ^ 64) now ≡ false =
      le→ltb _ now (omega (arith, b.recent, b.small)) in
    let late : ltb ((r.last_recv_tick + 30000) % 2 ^ 64) now ≡ true =
      lt→ltb _ now (omega (arith, b.recv, old, h)) in
    (
      rw not_late,
      ap (λ (x : Bool). (if x then close r s else s).server_list) late
          ∙ close-server_list r s
          ∙ ap (serv_reset s.server_list) b.index,
    )
