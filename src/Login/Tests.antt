-- ===== src/Login/Tests.antt =====
-- The theorems on the login server at concrete values.
use xx_chat.Base.{ℕ, ◌≡◌, refl, List, [], ◌∷◌, arith, lookup, some}
use xx_chat.Login.{MsgServInfo, LoginConn, Request, State, answer, handle_msg_serv_info}
use xx_chat.Login.Counts.{Call, IsCounted, users, run, run-IsCounted, announced_twice}
use xx_chat.Login.Choice.{Answers, answer-Answers}

abbrev server : ℕ → MsgServInfo
server n = record {
  ip_addr = 49 ∷ [];
  port = 8000;
  max_conn_cnt = 10;
  cur_conn_cnt = n;
  hostname = [];
}

abbrev conn : ℕ → LoginConn
conn h = record { handle = h; conn_type = 2; last_send_tick = 0; last_recv_tick = 0 }

abbrev start : State
start = record {
  client_conn_map = [];
  msg_serv_conn_map = [];
  total_online_user_cnt = 7;
  msg_serv_info = (5, server 7) ∷ [];
}

abbrev message : ℕ → Request
message cmd = record { command_id = cmd; seq_num = 1; body = [] }

-- A server with 3 users connects, gets one more user and is closed.
abbrev calls : List Call
calls =
    Call.connects (conn 4294967295) 6 2
    ∷ Call.receives (conn 6) (message 1801)
    ∷ Call.receives (conn 6) (message 1803)
    ∷ Call.closed (conn 6)
    ∷ Call.timer 99999
    ∷ []

run-IsCounted_example : IsCounted (run (λ b. server 3) (λ b. 1) calls start)
unfolding users lookup xx_chat.Login.on_connect2 xx_chat.Login.handle_pdu
    xx_chat.Login.handle_msg_serv_info xx_chat.Login.handle_user_cnt_update xx_chat.Base.insert
    xx_chat.Base.place xx_chat.Base.update
run-IsCounted_example =
    run-IsCounted (λ b. server 3) (λ b. 1) calls start refl
      (refl, (refl, (refl, (refl, (refl, tt)))))

announced_twice_example :
    ¬ IsCounted (handle_msg_serv_info (λ b. server 3) (λ b. 1) (conn 5) (message 1801) start)
unfolding users lookup
announced_twice_example =
    announced_twice (λ b. server 3) (λ b. 1) (conn 5) (message 1801) start (server 7) refl
      (omega arith) (omega arith) refl

answer-Answers_example :
    Answers ((5, server 7) ∷ (6, server 3) ∷ []) 9 (answer ((5, server 7) ∷ (6, server 3) ∷ []) 9)
answer-Answers_example =
    answer-Answers ((5, server 7) ∷ (6, server 3) ∷ []) 9 (omega arith, (omega arith, tt))
