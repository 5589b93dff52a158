-- ===== src/Http/Server.antt =====
-- LoginServer of xx_chat_server/src/login_server/login_server.h and login_server.cpp, the server that
-- the main function of the login server runs, on connections of net.
-- All runs in the thread of the loop. The writer `json` and the parser are the parameters of Http. `none`
-- is a failed assert in the connection.
use xx_chat.Base.{
  ℕ, ◌-◌, ◌^◌, ◌≡◌, refl, Bool, true, false, ◌&&◌, Option, none, some, List, [], ◌∷◌, ltb, take,
  if◌then◌else◌, if_cases,
}
use xx_chat.Base.Options.{◌>>=◌, found, Always, Always-here, Always-bind}
use xx_chat.Strings.{find, start_with_prefix_string}
use xx_chat.Login.{MsgServInfo}
use xx_chat.Net.Buffer.{readable_bytes, peek}
use xx_chat.Net.Tcp.{TcpConnection, Written, send, force_close}
use xx_chat.Http.{response, msg_server_url}
use xx_chat.Http.Parser.{HttpParserWrapper, ParserCall, new_parser, parse_http_content}

pub record LoginServer : Type 0 where
  pub msg_server_infos : List MsgServInfo

unfoldable pub new_login_server : LoginServer
new_login_server = record { msg_server_infos = [] }

-- "no msg_server!" and "all msg_server are full!"
abbrev pub no_server_text : List ℕ
no_server_text = 110 ∷ 111 ∷ 32 ∷ 109 ∷ 115 ∷ 103 ∷ 95 ∷ 115 ∷ 101 ∷ 114 ∷ 118 ∷ 101 ∷ 114 ∷ 33 ∷ []

abbrev pub all_full_text : List ℕ
all_full_text =
    97 ∷ 108 ∷ 108 ∷ 32 ∷ 109 ∷ 115 ∷ 103 ∷ 95 ∷ 115 ∷ 101 ∷ 114 ∷ 118 ∷ 101 ∷ 114 ∷ 32 ∷ 97 ∷ 114
    ∷ 101 ∷ 32 ∷ 102 ∷ 117 ∷ 108 ∷ 108 ∷ 33 ∷ []

-- "GET"
abbrev pub get_text : List ℕ
get_text = 71 ∷ 69 ∷ 84 ∷ []

-- The loop over the servers: the one chosen so far, and minUserCnt.
unfoldable pub min_user : List MsgServInfo → Option MsgServInfo → ℕ → Option MsgServInfo
min_user [] best min_user_cnt = best
min_user (info ∷ infos) best min_user_cnt =
    if ltb info.cur_conn_cnt info.max_conn_cnt && ltb info.cur_conn_cnt min_user_cnt
    then min_user infos (some info) info.cur_conn_cnt
    else min_user infos best min_user_cnt

-- Its body is empty.
unfoldable pub handle_msg_server_data : LoginServer → TcpConnection → List ℕ → LoginServer
handle_msg_server_data s conn data_ = s

abbrev pub inbuf : TcpConnection → List ℕ
inbuf conn = take (readable_bytes conn.input) (peek conn.input)

module _ (json : ℕ → List ℕ → List ℕ → ℕ → List ℕ) (execute : List ℕ → List ParserCall) where
  unfoldable pub content : List MsgServInfo → List ℕ
  unfolding min_user
  content [] = json 1 no_server_text [] 0
  content (info ∷ infos) =
      found (min_user (info ∷ infos) none (2 ^ 31 - 1)) (json 2 all_full_text [] 0)
        (λ best. json 0 [] best.ip_addr best.port)

  -- The request, as its parser has it.
  unfoldable pub parsed : List ℕ → HttpParserWrapper
  unfolding parse_http_content new_parser
  parsed data_ = parse_http_content execute new_parser data_

  abbrev pub is_asking : List ℕ → Bool
  is_asking data_ =
      (parsed data_).read_all && found (find (parsed data_).url msg_server_url 0) false (λ i. true)

  unfoldable pub handle_client_data :
      LoginServer → TcpConnection → List ℕ → Written → Option TcpConnection
  unfolding content parsed find response send
  handle_client_data s conn data_ w =
      if is_asking data_
      then send conn true (response (content s.msg_server_infos)) w
      else some conn

  -- The buffer keeps its bytes.
  unfoldable pub on_message :
      LoginServer → TcpConnection → Written → Option (LoginServer × TcpConnection)
  unfolding handle_client_data handle_msg_server_data start_with_prefix_string force_close
  on_message s conn w =
      if start_with_prefix_string (inbuf conn) get_text
      then (handle_client_data s conn (inbuf conn) w >>= λ conn'. some (s, force_close conn'))
      else some (handle_msg_server_data s conn (inbuf conn), conn)

  -- The messages of any connections, of clients and of message servers, in the order of the loop.
  unfoldable pub on_messages : LoginServer → List (TcpConnection × Written) → Option LoginServer
  unfolding on_message
  on_messages s [] = some s
  on_messages s ((conn, w) ∷ more) = on_message s conn w >>= λ (s', conn'). on_messages s' more

  -- Whether the server knows no message server.
  record IsWithoutServers (s : LoginServer) : Type 0 where
    without : s.msg_server_infos ≡ []

  on_message-IsWithoutServers :
      (s : LoginServer) (conn : TcpConnection) (w : Written)
      → IsWithoutServers s
      → Always (λ (r : LoginServer × TcpConnection). IsWithoutServers r.0) (on_message s conn w)
  unfolding on_message handle_msg_server_data
  on_message-IsWithoutServers s conn w inv =
      let P = λ (r : LoginServer × TcpConnection). IsWithoutServers r.0 in
      if_cases (Always P) (start_with_prefix_string (inbuf conn) get_text)
        (λ e.
          Always-bind P (handle_client_data s conn (inbuf conn) w) (λ conn' f. Always-here P _ inv))
        (λ e. Always-here P _ inv)

  on_messages-IsWithoutServers :
      (messages : List (TcpConnection × Written)) (s : LoginServer)
      → IsWithoutServers s
      → Always IsWithoutServers (on_messages s messages)
  unfolding on_messages
  on_messages-IsWithoutServers [] s inv = Always-here IsWithoutServers s inv
  on_messages-IsWithoutServers ((conn, w) ∷ more) s inv =
      Always-bind IsWithoutServers (on_message s conn w) (λ (s', conn') e.
        on_messages-IsWithoutServers more s'
          ((on_message-IsWithoutServers s conn w inv).of_result (s', conn') e))

  -- Whatever clients and message servers have sent before, a client whose complete request is for
  -- /msg_server is refused with the code 1, that there is no message server: no message makes a server
  -- known. The connection is told to close at once.
  pub never_served :
      (messages : List (TcpConnection × Written)) (s : LoginServer) (conn : TcpConnection)
      (w : Written)
      → on_messages new_login_server messages ≡ some s
      → start_with_prefix_string (inbuf conn) get_text ≡ true
      → is_asking (inbuf conn) ≡ true
      → on_message s conn w ≡ (
          send conn true (response (json 1 no_server_text [] 0)) w >>= λ conn'.
          some (s, force_close conn'))
  unfolding new_login_server on_message handle_client_data content
  never_served messages s conn w e starts asks =
      let empty =
        ((on_messages-IsWithoutServers messages new_login_server
            (record { without = refl })).of_result
          s e).without in
      rw (starts, asks, empty)
