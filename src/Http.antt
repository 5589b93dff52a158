-- ===== src/Http.antt =====
-- HttpConn of xx_chat_server/src/login_server/http_conn.h and http_conn.cpp: a client asks the login
-- server for a message server over HTTP.
-- A function takes the connection and the connections of the process, and gives both with what it
-- does to the socket. A connection of the table is written back after the call, if it is still there.
-- The writer of rapidjson is the parameter `json`, of the code, the text, the address and the port; the
-- texts it makes have no byte 0. What the kernel answers and delivers is an argument, as in Conn.
pub mod Parser
pub mod Answers
pub mod Closing
pub mod Writing
pub mod Server
mod Tests
use xx_chat.Base.{
  ℕ, zero, suc, min, ◌+◌, ◌-◌, ◌*◌, ◌/◌, ◌%◌, ◌^◌, Bool, true, false, not, ◌&&◌, Option, none, some,
  List, [], ◌∷◌, ◌++◌, length, take, drop, write_at, ltb, ◌==◌, if◌then◌else◌, lookup, insert,
  update, erase,
}
use xx_chat.Base.Options.{found}
use xx_chat.Pdu.SimpleBuffer
use xx_chat.Pdu.SimpleBuffer.{SimpleBuffer, u32}
use xx_chat.Conn.{Answer, accepted}
use xx_chat.Login.{MsgServInfo}
use xx_chat.Strings.{matches}
use xx_chat.Http.Parser.{HttpParserWrapper, ParserCall, new_parser, parse_http_content}

pub record HttpConn : Type 0 where
  pub sock_handle : ℕ
  pub conn_handle : ℕ
  pub busy : Bool
  pub state : ℕ
  pub peer_ip : List ℕ
  pub in_buf : SimpleBuffer
  pub out_buf : SimpleBuffer
  pub last_send_tick : ℕ
  pub last_recv_tick : ℕ
  pub http_parser : HttpParserWrapper

-- What happens to a socket: bytes that the kernel takes, and netlib_close.
pub data Effect : Type 0 where
  puts : ℕ → List ℕ → Effect
  closes : ℕ → Effect

-- g_http_conn_map and g_conn_handle_generator.
pub record State : Type 0 where
  pub http_conn_map : List (ℕ × HttpConn)
  pub generator : ℕ

abbrev pub idle : ℕ
idle = 0

abbrev pub connected : ℕ
connected = 1

abbrev pub closed : ℕ
closed = 3

abbrev pub read_buf_size : ℕ
read_buf_size = 2048

-- A handle that is 0 after the wrap-around is passed over.
unfoldable pub next_handle : ℕ → ℕ
next_handle generator = let n = u32 (generator + 1) in if n == 0 then u32 (n + 1) else n

unfoldable pub new_http_conn : ℕ → State → HttpConn × State
unfolding next_handle new_parser SimpleBuffer.empty
new_http_conn now s = (
  record {
    sock_handle = 2 ^ 32 - 1;
    conn_handle = next_handle s.generator;
    busy = false;
    state = idle;
    peer_ip = [];
    in_buf = SimpleBuffer.empty;
    out_buf = SimpleBuffer.empty;
    last_send_tick = now;
    last_recv_tick = now;
    http_parser = new_parser;
  },
  record s { generator = next_handle s.generator },
)

abbrev pub Step : Type 0
Step = HttpConn × State × List Effect

unfoldable pub close : HttpConn → State → Step
close c s = (
  record c { state = closed },
  record s { http_conn_map = erase c.conn_handle s.http_conn_map },
  closes c.sock_handle ∷ [],
)

unfoldable pub on_close : HttpConn → State → Step
unfolding close
on_close c s = close c s

-- `ip`: what netlib_option says of the peer.
unfoldable pub on_connect : HttpConn → ℕ → List ℕ → State → HttpConn × State
on_connect c handle ip s =
    let c' : HttpConn = record c { sock_handle = handle; state = connected; peer_ip = ip } in
    (c', record s { http_conn_map = insert c.conn_handle c' s.http_conn_map })

unfoldable pub on_write_complete : HttpConn → State → Step
unfolding close
on_write_complete c s = close c s

unfoldable pub send : HttpConn → ℕ → List ℕ → Answer → State → Step
unfolding on_write_complete
send c now data_ answer s =
    let c1 : HttpConn = record c { last_send_tick = now } in
    let len = length data_ in
    let ret = accepted answer len in
    if c.busy
    then (record c1 { out_buf = SimpleBuffer.write c1.out_buf (some data_) len }, s, [])
    else if ltb ret len
    then (
      record c1 {
        out_buf = SimpleBuffer.write c1.out_buf (some (drop ret data_)) (len - ret);
        busy = true;
      },
      s,
      puts c.sock_handle (take ret data_) ∷ [],
    )
    else (let (c2, s', out) = on_write_complete c1 s in
        (c2, s', puts c.sock_handle (take ret data_) ∷ out))

unfoldable pub on_write : HttpConn → Answer → State → Step
unfolding on_write_complete
on_write c answer s =
    let size = c.out_buf.write_offset in
    let ret = accepted answer size in
    let put = puts c.sock_handle (take ret c.out_buf.buffer) in
    let c1 : HttpConn = record c { out_buf = (SimpleBuffer.read c.out_buf ret).2 } in
    if not c.busy
    then (c, s, [])
    else if ltb ret size
    then (record c1 { busy = true }, s, put ∷ [])
    else (let (c2, s', out) = on_write_complete c1 s in (record c2 { busy = false }, s', put ∷ out))

unfoldable pub on_timer : HttpConn → ℕ → State → Step
unfolding close
on_timer c curr_tick s =
    if ltb ((c.last_recv_tick + 60000) % 2 ^ 64) curr_tick then close c s else (c, s, [])

-- All connections of the table, one after the other.
unfoldable pub on_timers : List (ℕ × HttpConn) → ℕ → State → State × List Effect
unfolding on_timer
on_timers [] now s = (s, [])
on_timers ((k, c) ∷ m) now s =
    let (c', s', out) = on_timer c now s in
    let (s'', rest) = on_timers m now s' in (s'', out ++ rest)

unfoldable pub http_conn_timer_callback : ℕ → State → State × List Effect
unfolding on_timers
http_conn_timer_callback now s = on_timers s.http_conn_map now s

-- The loop of HandleMsgServRequest: the server chosen so far, and its number of connections.
unfoldable pub min_conn : List (ℕ × MsgServInfo) → Option MsgServInfo → ℕ → Option MsgServInfo
min_conn [] it_min_conn min_user_cnt = it_min_conn
min_conn ((k, info) ∷ m) it_min_conn min_user_cnt =
    if ltb info.cur_conn_cnt info.max_conn_cnt && ltb info.cur_conn_cnt min_user_cnt
    then min_conn m (some info) info.cur_conn_cnt
    else min_conn m it_min_conn min_user_cnt

-- "%d" of a number of at most `fuel` digits.
unfoldable pub digits : ℕ → ℕ → List ℕ
digits zero n = []
digits (suc fuel) n =
    let front = digits fuel (n / 10) in
    if ltb n 10 then (48 + n) ∷ [] else front ++ (48 + n % 10) ∷ []

-- HTTP_RESPONSE_HTML in front of the length of the content, and behind it.
abbrev pub response_head : List ℕ
response_head =
    72 ∷ 84 ∷ 84 ∷ 80 ∷ 47 ∷ 49 ∷ 46 ∷ 49 ∷ 32 ∷ 50 ∷ 48 ∷ 48 ∷ 32 ∷ 79 ∷ 75 ∷ 13 ∷ 10 ∷ 67 ∷ 111
    ∷ 110 ∷ 110 ∷ 101 ∷ 99 ∷ 116 ∷ 105 ∷ 111 ∷ 110 ∷ 58 ∷ 99 ∷ 108 ∷ 111 ∷ 115 ∷ 101 ∷ 13 ∷ 10 ∷ 67
    ∷ 111 ∷ 110 ∷ 116 ∷ 101 ∷ 110 ∷ 116 ∷ 45 ∷ 76 ∷ 101 ∷ 110 ∷ 103 ∷ 116 ∷ 104 ∷ 58 ∷ []

abbrev pub response_tail : List ℕ
response_tail =
    13 ∷ 10 ∷ 67 ∷ 111 ∷ 110 ∷ 116 ∷ 101 ∷ 110 ∷ 116 ∷ 45 ∷ 84 ∷ 121 ∷ 112 ∷ 101 ∷ 58 ∷ 116 ∷ 101
    ∷ 120 ∷ 116 ∷ 47 ∷ 104 ∷ 116 ∷ 109 ∷ 108 ∷ 59 ∷ 99 ∷ 104 ∷ 97 ∷ 114 ∷ 115 ∷ 101 ∷ 116 ∷ 61 ∷ 117
    ∷ 116 ∷ 102 ∷ 45 ∷ 56 ∷ 13 ∷ 10 ∷ 13 ∷ 10 ∷ []

-- snprintf leaves at most HTTP_RESPONSE_HTML_MAX - 1 bytes.
unfoldable pub response : List ℕ → List ℕ
unfolding digits
response content =
    take 1023 (response_head ++ (digits 20 (length content) ++ (response_tail ++ content)))

-- "没有msg_server" and "负载过高" in UTF-8.
abbrev pub no_server_text : List ℕ
no_server_text =
    230 ∷ 178 ∷ 161 ∷ 230 ∷ 156 ∷ 137 ∷ 109 ∷ 115 ∷ 103 ∷ 95 ∷ 115 ∷ 101 ∷ 114 ∷ 118 ∷ 101 ∷ 114
    ∷ []

abbrev pub too_busy_text : List ℕ
too_busy_text = 232 ∷ 180 ∷ 159 ∷ 232 ∷ 189 ∷ 189 ∷ 232 ∷ 191 ∷ 135 ∷ 233 ∷ 171 ∷ 152 ∷ []

-- "/msg_server"
abbrev pub msg_server_url : List ℕ
msg_server_url = 47 ∷ 109 ∷ 115 ∷ 103 ∷ 95 ∷ 115 ∷ 101 ∷ 114 ∷ 118 ∷ 101 ∷ 114 ∷ []

module _ (json : ℕ → List ℕ → List ℕ → ℕ → List ℕ) where
  -- The content of the response.
  unfoldable pub content : List (ℕ × MsgServInfo) → List ℕ
  unfolding min_conn
  content [] = json 1 no_server_text [] 0
  content (e ∷ m) =
      found (min_conn (e ∷ m) none (2 ^ 32 - 1)) (json 2 too_busy_text [] 0)
        (λ info. json 0 [] info.ip_addr info.port)

  unfoldable pub handle_msg_serv_request :
      List (ℕ × MsgServInfo) → HttpConn → ℕ → Answer → State → Step
  unfolding content response send
  handle_msg_serv_request msg_serv_info c now answer s =
      send c now (response (content msg_serv_info)) answer s

abbrev pub make_room : SimpleBuffer → SimpleBuffer
make_room b =
    if ltb (u32 (b.alloc_size + 2 ^ 32 - b.write_offset)) (read_buf_size + 1)
    then SimpleBuffer.extend b (read_buf_size + 1)
    else b

-- The loop of OnRead. It ends when nothing more is delivered.
unfoldable pub recv_loop : HttpConn → ℕ → List (List ℕ) → HttpConn
recv_loop c now [] = record c { in_buf = make_room c.in_buf }
recv_loop c now (chunk ∷ chunks) =
    let b = make_room c.in_buf in
    let c' : HttpConn = record c {
      in_buf =
          SimpleBuffer.inc_write_offset
            (record b { buffer = write_at b.buffer b.write_offset chunk }) (length chunk);
      last_recv_tick = now;
    } in
    let rest = recv_loop c' now chunks in
    if length chunk == 0 then record c { in_buf = b } else rest

-- The parser of the vendored http_parser: the callbacks it calls for a text.
module _ (json : ℕ → List ℕ → List ℕ → ℕ → List ℕ) (execute : List ℕ → List ParserCall) where
  unfoldable pub on_read :
      List (ℕ × MsgServInfo) → HttpConn → ℕ → List (List ℕ) → Answer → State → Step
  unfolding close recv_loop parse_http_content matches handle_msg_serv_request
  on_read msg_serv_info c now chunks answer s =
      let c1 = recv_loop c now chunks in
      let b = c1.in_buf in
      let buf_len = b.write_offset in
      let c2 : HttpConn = record c1 {
        in_buf = record b { buffer = write_at b.buffer buf_len (0 ∷ []) };
      } in
      let c3 : HttpConn = record c2 {
        http_parser = parse_http_content execute c2.http_parser (take buf_len b.buffer);
      } in
      if ltb 1024 buf_len
      then close c2 s
      else if not c3.http_parser.read_all
      then (c3, s, [])
      else if matches msg_server_url c3.http_parser.url
      then handle_msg_serv_request json msg_serv_info c3 now answer s
      else close c3 s
