-- ===== src/Http/Tests.antt =====
-- HttpConn on concrete values.
use xx_chat.Base.{ℕ, ltb, ◌≡◌, refl, false, List, [], ◌∷◌, ◌++◌, ◌==◌, arith}
use xx_chat.Base.{true, some, replicate}
use xx_chat.Base.Options.{◌>>=◌}
use xx_chat.Net.Buffer.{Buffer, readable_bytes, peek}
use xx_chat.Net.Tcp
use xx_chat.Net.Tcp.{TcpConnection, Written, force_close}
use xx_chat.Strings.{find, find_at, start_with_prefix_string}
use xx_chat.Http.Server.{
  LoginServer, new_login_server, get_text, on_message, on_messages, inbuf, is_asking, parsed,
  handle_msg_server_data, never_served,
}
use xx_chat.Http.Server
use xx_chat.Http.Parser.{ParserCall, on_message_complete, parse_http_content, new_parser}
use xx_chat.Http.{msg_server_url}
use xx_chat.Pdu.SimpleBuffer.{SimpleBuffer}
use xx_chat.Pdu.SimpleBuffer.Content.{content}
use xx_chat.Conn.{Answer}
use xx_chat.Login.{MsgServInfo, answer}
use xx_chat.Strings.{matches, str_to_lower}
use xx_chat.Http.Parser.{
  HttpParserWrapper, on_url, on_header_field, on_header_value, callbacks, callback, header_field,
  header_value, atoi, atoi_digits, content_len_name,
}
use xx_chat.Http.{HttpConn, State, connected, closed, response, send, handle_msg_serv_request}
use xx_chat.Http.Answers.{rendered, handle_msg_serv_request_lem}
use xx_chat.Http.Closing.{on_writes, Ends}
use xx_chat.Http.Writing.{IsUnanswered, wired, send-on_writes}

-- An empty buffer, written out.
abbrev empty : SimpleBuffer
empty = record { buffer = []; alloc_size = 0; write_offset = 0 }

abbrev parser : HttpParserWrapper
parser = record {
  read_all = false;
  read_referer = false;
  read_forward_ip = false;
  read_user_agent = false;
  read_content_type = false;
  read_content_len = false;
  read_host = false;
  total_length = 0;
  url = [];
  body_content = [];
  referer = [];
  forward_ip = [];
  user_agent = [];
  content_type = [];
  content_len = 0;
  host = [];
}

abbrev up : HttpConn
up = record {
  sock_handle = 7;
  conn_handle = 1;
  busy = false;
  state = connected;
  peer_ip = [];
  in_buf = empty;
  out_buf = empty;
  last_send_tick = 0;
  last_recv_tick = 0;
  http_parser = parser;
}

abbrev table : State
table = record { http_conn_map = (1, up) ∷ []; generator = 1 }

abbrev servers : List (ℕ × MsgServInfo)
servers =
    (3, record { ip_addr = 49 ∷ []; port = 80; max_conn_cnt = 5; cur_conn_cnt = 2; hostname = [] })
    ∷ []

abbrev json : ℕ → List ℕ → List ℕ → ℕ → List ℕ
json code msg ip port = code ∷ port ∷ ip

handle_msg_serv_request_lem_example :
    handle_msg_serv_request json servers up 10 Answer.refuse table
    ≡ send up 10 (response (rendered json (answer servers 4))) Answer.refuse table
handle_msg_serv_request_lem_example =
    handle_msg_serv_request_lem json servers up 10 4 Answer.refuse table

up-IsUnanswered : IsUnanswered up
up-IsUnanswered = record { valid = omega arith; unused = refl; idle = refl; up = refl }

send-on_writes_example :
    let (c1, s1, first) = send up 10 (1 ∷ 2 ∷ 3 ∷ []) (Answer.room 1) table in
    let (c2, s2, more) = on_writes c1 s1 (Answer.refuse ∷ Answer.room 5 ∷ []) in
    (wired (first ++ more) ++ content c2.out_buf ≡ 1 ∷ 2 ∷ 3 ∷ [])
    × Ends up.sock_handle (ltb 0 c2.out_buf.write_offset) (first ++ more)
    × ((c2.state == closed) ≡ (c2.out_buf.write_offset == 0))
send-on_writes_example =
    send-on_writes up 10 (1 ∷ 2 ∷ 3 ∷ []) (Answer.room 1) table (Answer.refuse ∷ Answer.room 5 ∷ [])
      up-IsUnanswered (omega arith)

-- "Content-Length: 42" is read as 42, and a url that comes in two parses is there twice.
abbrev number : List ℕ
number = 52 ∷ 50 ∷ []

content_length :
    (callbacks parser (on_header_field content_len_name ∷ on_header_value number ∷ [])).content_len
    ≡ 42
unfolding callbacks callback header_field header_value matches str_to_lower atoi atoi_digits
content_length = refl

url_twice :
    (callbacks parser (on_url (47 ∷ []) ∷ on_url (47 ∷ 109 ∷ []) ∷ [])).url ≡ 47 ∷ 47 ∷ 109 ∷ []
unfolding callbacks callback
url_twice = refl

-- LoginServer, with a parser that sees a request for /msg_server in every text.
abbrev execute : List ℕ → List ParserCall
execute data_ = on_url msg_server_url ∷ on_message_complete ∷ []

abbrev idle_buffer : Buffer
idle_buffer = record { buffer = replicate 8 0 ++ get_text; reader_index = 8; writer_index = 11 }

-- One that has sent "GE".
abbrev other_buffer : Buffer
other_buffer = record { buffer = replicate 8 0 ++ get_text; reader_index = 8; writer_index = 10 }

abbrev client : Buffer → TcpConnection
client input = record {
  state = Tcp.connected;
  channel = record {
    fd = 5;
    events = record { reading = true; writing = false };
    tied = true;
    added_to_loop = true;
    loop_calls = [];
  };
  input = input;
  output = record { buffer = replicate 16 0; reader_index = 8; writer_index = 8 };
  high_water_mark = 64;
  has_write_complete = false;
  has_high_water_mark = false;
  wire = [];
  done = [];
}

abbrev all_taken : Written
all_taken = record { result = 200; errno = 0 }

no_servers : LoginServer
no_servers = record { msg_server_infos = [] }

after_other :
    on_messages json execute new_login_server ((client other_buffer, all_taken) ∷ [])
    ≡ some no_servers
unfolding new_login_server no_servers on_messages on_message handle_msg_server_data
    start_with_prefix_string readable_bytes peek
after_other = refl

is_get : start_with_prefix_string (inbuf (client idle_buffer)) get_text ≡ true
unfolding start_with_prefix_string readable_bytes peek
is_get = refl

is_complete : is_asking json execute (inbuf (client idle_buffer)) ≡ true
unfolding parsed parse_http_content callbacks callback new_parser find find_at matches
is_complete = refl

never_served_example : on_message json execute no_servers (client idle_buffer) all_taken ≡ (
    Tcp.send (client idle_buffer) true (response (json 1 Server.no_server_text [] 0)) all_taken
    >>= λ conn'. some (no_servers, force_close conn'))
never_served_example =
    never_served json execute ((client other_buffer, all_taken) ∷ []) no_servers
      (client idle_buffer) all_taken after_other is_get is_complete
