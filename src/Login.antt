-- ===== src/Login.antt =====
-- LoginConn of xx_chat_server/src/login_server/login_conn.h and login_conn.cpp: the login server's
-- connections to clients and to message servers, and its table of message servers.
-- A handler takes the state of the process and gives the next one with what it sends and closes. An
-- int is its bit pattern. The parsers of the protobuf messages are parameters, and so is the clock.
pub mod Counts
pub mod Choice
mod Tests
use xx_chat.Base.{
  ℕ, ◌+◌, ◌-◌, ◌%◌, ◌^◌, Bool, true, false, ◌&&◌, Option, none, some, List, [], ◌∷◌, ◌++◌, ltb,
  ◌==◌, if◌then◌else◌, lookup, insert, update, erase, erase_found,
}
use xx_chat.Base.Options.{found}

pub record MsgServInfo : Type 0 where
  pub ip_addr : List ℕ
  pub port : ℕ
  pub max_conn_cnt : ℕ
  pub cur_conn_cnt : ℕ
  pub hostname : List ℕ

pub record LoginConn : Type 0 where
  pub handle : ℕ
  pub conn_type : ℕ
  pub last_send_tick : ℕ
  pub last_recv_tick : ℕ

-- The parts of a message that the handlers read.
pub record Request : Type 0 where
  pub command_id : ℕ
  pub seq_num : ℕ
  pub body : List ℕ

-- What a handler sends: a refusal or an answer to HandleMsgServRequest, with the sequence number of
-- the request, or a heartbeat.
pub data Message : Type 0 where
  refused : (code seq_num : ℕ) → Message
  served : (ip : List ℕ) (port seq_num : ℕ) → Message
  heart_beat : Message

pub data Effect : Type 0 where
  sends : (handle : ℕ) → Message → Effect
  closes : (handle : ℕ) → Effect

pub record State : Type 0 where
  pub client_conn_map : List (ℕ × LoginConn)
  pub msg_serv_conn_map : List (ℕ × LoginConn)
  pub total_online_user_cnt : ℕ
  pub msg_serv_info : List (ℕ × MsgServInfo)

abbrev pub invalid_handle : ℕ
invalid_handle = 4294967295

abbrev pub conn_type_client : ℕ
conn_type_client = 1

abbrev pub conn_type_msg_serv : ℕ
conn_type_msg_serv = 2

-- uint32_t
abbrev pub add32 : ℕ → ℕ → ℕ
add32 a b = (a + b) % 2 ^ 32

abbrev pub sub32 : ℕ → ℕ → ℕ
sub32 a b = (a + (2 ^ 32 - b % 2 ^ 32)) % 2 ^ 32

-- The end of `Close` for a message server: all its users are gone.
unfoldable pub remove_users : ℕ → State → State
remove_users handle s = found (lookup handle s.msg_serv_info) s (λ info. record s {
  total_online_user_cnt = sub32 s.total_online_user_cnt info.cur_conn_cnt;
  msg_serv_info = erase_found handle s.msg_serv_info;
})

unfoldable pub close : LoginConn → State → State × List Effect
close c s =
    if c.handle == invalid_handle
    then (s, [])
    else if c.conn_type == conn_type_client
    then (record s { client_conn_map = erase c.handle s.client_conn_map }, closes c.handle ∷ [])
    else (
      remove_users c.handle (record s { msg_serv_conn_map = erase c.handle s.msg_serv_conn_map }),
      closes c.handle ∷ [],
    )

unfoldable pub on_close : LoginConn → State → State × List Effect
on_close c s = close c s

-- The connection gets its handle and type. Only one to a message server is kept in a map.
unfoldable pub on_connect2 : LoginConn → ℕ → ℕ → State → LoginConn × State
on_connect2 c handle conn_type s =
    let c' = record c { handle = handle; conn_type = conn_type } in
    (
      c',
      if conn_type == conn_type_client
          then s
          else record s { msg_serv_conn_map = insert handle c' s.msg_serv_conn_map },
    )

-- The heartbeat of `OnTimer`: SendPdu notes the time.
unfoldable pub beat : LoginConn → ℕ → State → LoginConn × State × List Effect
beat c curr_tick s =
    if ltb ((c.last_send_tick + 5000) % 2 ^ 64) curr_tick
    then (
      record c { last_send_tick = curr_tick },
      record s {
        msg_serv_conn_map =
            update c.handle (λ w. record w { last_send_tick = curr_tick }) s.msg_serv_conn_map;
      },
      sends c.handle heart_beat ∷ [],
    )
    else (c, s, [])

unfoldable pub on_timer : LoginConn → ℕ → State → State × List Effect
on_timer c curr_tick s =
    if c.conn_type == conn_type_client
    then (if ltb ((c.last_recv_tick + 120000) % 2 ^ 64) curr_tick then close c s else (s, []))
    else (let (c', s', sent) = beat c curr_tick s in
        if ltb ((c'.last_recv_tick + 30000) % 2 ^ 64) curr_tick
        then (let (s'', closed) = close c' s' in (s'', sent ++ closed))
        else (s', sent))

unfoldable pub on_timers : List (ℕ × LoginConn) → ℕ → State → State × List Effect
on_timers [] now s = (s, [])
on_timers ((k, c) ∷ m) now s =
    let (s', out) = on_timer c now s in let (s'', rest) = on_timers m now s' in (s'', out ++ rest)

unfoldable pub login_conn_timer_callback : ℕ → State → State × List Effect
login_conn_timer_callback now s =
    let (s', out) = on_timers s.client_conn_map now s in
    let (s'', rest) = on_timers s'.msg_serv_conn_map now s' in (s'', out ++ rest)

-- The loop of HandleMsgServRequest: the server chosen so far, and its number of connections.
unfoldable pub choose : List (ℕ × MsgServInfo) → Option MsgServInfo → ℕ → Option MsgServInfo
choose [] best min_user_cnt = best
choose ((k, i) ∷ m) best min_user_cnt =
    let better = ltb i.cur_conn_cnt i.max_conn_cnt && ltb i.cur_conn_cnt min_user_cnt in
    choose m (if better then some i else best) (if better then i.cur_conn_cnt else min_user_cnt)

-- What HandleMsgServRequest answers.
unfoldable pub answer : List (ℕ × MsgServInfo) → ℕ → Message
answer [] seq_num = refused 1 seq_num
answer (e ∷ m) seq_num =
    found (choose (e ∷ m) none 4294967295) (refused 2 seq_num)
      (λ i. served i.ip_addr i.port seq_num)

unfoldable pub handle_msg_serv_request : LoginConn → Request → State → State × List Effect
handle_msg_serv_request c pdu s =
    let (s', closed) = close c s in
    (s', sends c.handle (answer s.msg_serv_info pdu.seq_num) ∷ closed)

-- The protobuf parsers of im.server.proto: MsgServInfo, and the action of UserCntUpdate.
module _ (parse_info : List ℕ → MsgServInfo) (parse_action : List ℕ → ℕ) where
  unfoldable pub handle_msg_serv_info : LoginConn → Request → State → State
  handle_msg_serv_info c pdu s =
      let msg = parse_info pdu.body in
      let info = record msg { port = msg.port % 2 ^ 16 } in
      record s {
        msg_serv_info = insert c.handle info s.msg_serv_info;
        total_online_user_cnt = add32 s.total_online_user_cnt info.cur_conn_cnt;
      }

  unfoldable pub handle_user_cnt_update : LoginConn → Request → State → State
  handle_user_cnt_update c pdu s = found (lookup c.handle s.msg_serv_info) s (λ info.
      if parse_action pdu.body == 1
      then record s {
        msg_serv_info =
            update c.handle (λ i. record i { cur_conn_cnt = add32 i.cur_conn_cnt 1 })
              s.msg_serv_info;
        total_online_user_cnt = add32 s.total_online_user_cnt 1;
      }
      else record s {
        msg_serv_info =
            update c.handle (λ i. record i { cur_conn_cnt = sub32 i.cur_conn_cnt 1 })
              s.msg_serv_info;
        total_online_user_cnt = sub32 s.total_online_user_cnt 1;
      })

  unfoldable pub handle_pdu : LoginConn → Request → State → State × List Effect
  handle_pdu c pdu s =
      if pdu.command_id == 1793
      then (s, [])
      else if pdu.command_id == 1801
      then (handle_msg_serv_info c pdu s, [])
      else if pdu.command_id == 1803
      then (handle_user_cnt_update c pdu s, [])
      else if pdu.command_id == 257
      then handle_msg_serv_request c pdu s
      else (s, [])
