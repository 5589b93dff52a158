-- ===== src/Http/Answers.antt =====
-- What HttpConn answers, beside what LoginConn answers.
use xx_chat.Base.{
  ℕ, ◌≡◌, refl, ap, ◌∙◌, inl, inr, ◌&&◌, Option, none, some, List, [], ◌∷◌, ltb, ◌==◌,
  if◌then◌else◌, Bool-cases,
}
use xx_chat.Base.Options.{found}
use xx_chat.Login.{MsgServInfo, choose, answer}
use xx_chat.Login
use xx_chat.Conn.{Answer}
use xx_chat.Http.{
  HttpConn, State, min_conn, content, response, send, handle_msg_serv_request, no_server_text,
  too_busy_text,
}

-- The loops of the two classes choose the same server.
min_conn-choose :
    (m : List (ℕ × MsgServInfo)) (best : Option MsgServInfo) (n : ℕ)
    → min_conn m best n ≡ choose m best n
unfolding min_conn choose
min_conn-choose [] best n = refl
min_conn-choose ((k, i) ∷ m) best n =
    elim (Bool-cases (ltb i.cur_conn_cnt i.max_conn_cnt && ltb i.cur_conn_cnt n)) [
      | inl better ↦ rw better (min_conn-choose m (some i) i.cur_conn_cnt)
      | inr worse ↦ rw worse (min_conn-choose m best n)
    ]

-- A message of LoginConn as JSON.
pub rendered : (ℕ → List ℕ → List ℕ → ℕ → List ℕ) → Login.Message → List ℕ
rendered json (Login.Message.refused code seq_num) =
    json code (if code == 1 then no_server_text else too_busy_text) [] 0
rendered json (Login.Message.served ip port seq_num) = json 0 [] ip port
rendered json Login.Message.heart_beat = []

found-rendered :
    (json : ℕ → List ℕ → List ℕ → ℕ → List ℕ) (o : Option MsgServInfo) (seq_num : ℕ)
    → found o (json 2 too_busy_text [] 0) (λ i. json 0 [] i.ip_addr i.port)
      ≡ rendered json (
          found o
            (Login.Message.refused 2 seq_num)
            (λ i. Login.Message.served i.ip_addr i.port seq_num))
unfolding rendered
found-rendered json none seq_num = refl
found-rendered json (some i) seq_num = refl

content-rendered :
    (json : ℕ → List ℕ → List ℕ → ℕ → List ℕ) (m : List (ℕ × MsgServInfo)) (seq_num : ℕ)
    → content json m ≡ rendered json (answer m seq_num)
unfolding content answer rendered
content-rendered json [] seq_num = refl
content-rendered json (e ∷ m) seq_num =
    ap (λ o. found o (json 2 too_busy_text [] 0) (λ i. json 0 [] i.ip_addr i.port))
      (min_conn-choose (e ∷ m) none 4294967295)
    ∙ found-rendered json (choose (e ∷ m) none 4294967295) seq_num

-- A client that asks over HTTP is sent, as JSON, what a client that asks LoginConn would be told by the
-- same table of message servers: refusal 1 without any server, refusal 2 if all are full, and else the
-- same server, the one with the fewest connections.
pub handle_msg_serv_request_lem :
    (json : ℕ → List ℕ → List ℕ → ℕ → List ℕ) (m : List (ℕ × MsgServInfo)) (c : HttpConn)
    (now seq_num : ℕ) (a : Answer) (s : State)
    → handle_msg_serv_request json m c now a s
      ≡ send c now (response (rendered json (answer m seq_num))) a s
unfolding handle_msg_serv_request
handle_msg_serv_request_lem json m c now seq_num a s =
    ap (λ t. send c now (response t) a s) (content-rendered json m seq_num)
