-- ===== src/Msg/Tests.antt =====
-- The theorems on the message server at concrete values.
use xx_chat.Base.{arith, ◌≡◌, refl, false, none, some, [], ◌∷◌, lookup}
use xx_chat.Pdu.Exception.{ok}
use xx_chat.Pdu.SimpleBuffer.{SimpleBuffer}
use xx_chat.Pdu.ByteStream.{simple}
use xx_chat.Msg.Attach.{serialize, deserialize}
use xx_chat.Msg.AttachTrip.{attach, deserialize-serialize}
use xx_chat.Msg.{MsgConn, ImUser, State, Request, Effect, close, get_im_user_by_id, get_msg_conn}
use xx_chat.Msg.Handlers.{Protobuf, ValidateRsp, accept_login, handle_session_msg}
use xx_chat.Msg.Closed.{session_after_close, session_after_login}

-- A login answer for the name 7 with the id 3; messages go to the user 3.
abbrev rsp : ValidateRsp
rsp = record { user_name = 7; result_code = 0; user_id = 3; attach_data = [] }

abbrev proto : Protobuf
proto = record {
  login_req = λ b. (7, 0, 1);
  validate_rsp = λ b. rsp;
  all_user_rsp = λ b. (3, []);
  msg_to = λ b. 3;
  reserialized = λ b. b;
  without_attach = λ b. b;
  all_user_req = λ b i s. b;
}

abbrev conn : MsgConn
conn = record {
  handle = 5;
  login_name = 7;
  user_id = 0;
  login_time = 0;
  open_ = false;
  online_status = 1;
  last_recv_tick = 0;
}

abbrev user : ImUser
user = record {
  user_id = 0;
  user_name = 7;
  validate = false;
  conn_map = [];
  unvalidate_conn_set = (100, tt) ∷ [];
}

-- The connection 100 waits for the login of the user 200.
abbrev waiting : State
waiting = record {
  conns = (100, conn) ∷ [];
  users = (200, user) ∷ [];
  msg_conn_map = (5, 100) ∷ [];
  user_id_map = [];
  user_name_map = (7, 200) ∷ [];
}

abbrev message : Request
message = record { command_id = 769; seq_num = 0; body = [] }

session_after_login_example :
    (s' : State) × (accept_login proto 200 100 conn rsp waiting
      ≡ some (s', Effect.answers_login 5 0 0 ∷ []))
    × (handle_session_msg proto message s' ≡ some (s', Effect.forwards 5 message ∷ []))
unfolding get_im_user_by_id lookup
session_after_login_example =
    session_after_login proto message waiting 200 100 conn user rsp refl refl refl refl refl

-- The user 3 with the open connection 100.
abbrev logged : ImUser
logged = record user { user_id = 3; conn_map = (5, 100) ∷ []; unvalidate_conn_set = [] }

abbrev online : State
online = record waiting { users = (200, logged) ∷ []; user_id_map = (3, 200) ∷ [] }

session_after_close_example : handle_session_msg proto message (close 100 conn online).0 ≡ none
unfolding get_im_user_by_id get_msg_conn lookup
session_after_close_example =
    session_after_close proto message online 100 200 conn logged refl refl refl refl

deserialize-serialize_example :
    (b : SimpleBuffer) × ((serialize 1 5 0).backing ≡ simple b)
    × (deserialize b.buffer b.write_offset ≡ ok (attach 1 5 0))
deserialize-serialize_example =
    deserialize-serialize 1 5 0 (omega arith) (omega arith) (omega arith)
