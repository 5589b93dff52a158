-- ===== src/Msg/Handlers.antt =====
-- The message handlers of MsgConn (msg_conn.cpp) and DBServConn (db_server_conn.cpp) of the message
-- server. A connection is given by its address and its object.
use xx_chat.Base.{
  ℕ, Bool, true, not, Option, some, List, [], ◌∷◌, length, ◌==◌, if◌then◌else◌, lookup, put, insert,
  update, erase,
}
use xx_chat.Base.Options.{◌>>=◌, found}
use xx_chat.Pdu.Exception.{ok, throw}
use xx_chat.Pdu.ByteStream.{ByteStream}
use xx_chat.Msg.{
  MsgConn, ImUser, State, Request, Effect, get_im_user_by_id, get_im_user_by_name,
  add_im_user_by_name, add_im_user_by_id, remove_im_user_by_name, get_unvalidate_msg_conn,
  get_msg_conn_of, get_msg_conn, close,
}
use xx_chat.Msg.Attach.{serialize, deserialize}

-- im.server.LoginValidateRsp
pub record ValidateRsp : Type 0 where
  pub user_name : ℕ
  pub result_code : ℕ
  pub user_id : ℕ
  pub attach_data : List ℕ

-- What the handlers need of the protobuf messages: the fields of a body, and a body with changed
-- ones.
pub record Protobuf : Type 0 where
  pub login_req : List ℕ → ℕ × ℕ × ℕ
  pub validate_rsp : List ℕ → ValidateRsp
  pub all_user_rsp : List ℕ → ℕ × List ℕ
  pub msg_to : List ℕ → ℕ
  pub reserialized : List ℕ → List ℕ
  pub without_attach : List ℕ → List ℕ
  pub all_user_req : List ℕ → ℕ → ByteStream → List ℕ

-- The result of a handler: the state and what is sent; `none` uses a dead object.
abbrev pub Outcome : Type 0
Outcome = Option (State × List Effect)

-- The user at an address is changed.
abbrev pub change_user : ℕ → (ImUser → ImUser) → State → State
change_user u f s = record s { users = update u f s.users }

abbrev pub change_conn : ℕ → (MsgConn → MsgConn) → State → State
change_conn a f s = record s { conns = update a f s.conns }

abbrev pub add_unvalidate : ℕ → ImUser → ImUser
add_unvalidate a u = record u { unvalidate_conn_set = insert a tt u.unvalidate_conn_set }

abbrev pub del_unvalidate : ℕ → ImUser → ImUser
del_unvalidate a u = record u { unvalidate_conn_set = erase a u.unvalidate_conn_set }

-- `validate_` is not initialized.
unfoldable pub new_im_user : Bool → ℕ → ImUser
new_im_user uninitialized user_name = record {
  user_id = 0;
  user_name = user_name;
  validate = uninitialized;
  conn_map = [];
  unvalidate_conn_set = [];
}

-- The refusals of HandleLoginRequest, by what is available.
unfoldable pub login_refusal : Bool → Bool → Bool → ℕ
login_refusal db login route =
    if not db then 3 else if not login then 4 else if not route then 5 else 0

module _ (proto : Protobuf) where
  -- A new user goes to the address `fresh`.
  unfoldable pub handle_login_request :
      Bool → Bool → Bool → ℕ → Bool → ℕ → MsgConn → Request → State → State × List Effect
  handle_login_request db login route fresh uninitialized a c pdu s =
      let result = login_refusal db login route in
      if not (result == 0)
      then (let (s', closed) = close a c s in (s', Effect.answers_login c.handle result 0 ∷ closed))
      else (let (name, passwd, status) = proto.login_req pdu.body in
          let s1 = change_conn a (λ c. record c { login_name = name; online_status = status }) s in
          let u = found (get_im_user_by_name name s1) fresh (λ u. u) in
          let s2 =
            found (get_im_user_by_name name s1)
              (add_im_user_by_name name fresh
                (record s1 { users = put fresh (new_im_user uninitialized name) s1.users }))
              (λ u. s1) in
          (
            change_user u (add_unvalidate a) s2,
            Effect.validates name passwd c.handle pdu.seq_num ∷ [],
          ))

  unfoldable pub handle_buddy_list_all_user_request :
      Bool → MsgConn → Request → State → State × List Effect
  handle_buddy_list_all_user_request db c pdu s = (
    s,
    if db
        then Effect.asks_db
            (record pdu { body = proto.all_user_req pdu.body c.user_id (serialize 1 c.handle 0) })
          ∷ []
        else [],
  )

  unfoldable pub handle_client_msg_data : Bool → MsgConn → Request → State → State × List Effect
  handle_client_msg_data db c pdu s = (
    s,
    if db then Effect.asks_db (record pdu { body = proto.reserialized pdu.body }) ∷ [] else [],
  )

  -- MsgConn::HandlePdu.
  unfoldable pub handle_pdu :
      Bool → Bool → Bool → Bool → ℕ → Bool → ℕ → MsgConn → Request → State → State × List Effect
  handle_pdu db_for_login db login route fresh uninitialized a c pdu s =
      if pdu.command_id == 1793
      then (s, Effect.forwards c.handle pdu ∷ [])
      else if pdu.command_id == 259
      then handle_login_request db_for_login login route fresh uninitialized a c pdu s
      else if pdu.command_id == 513
      then handle_buddy_list_all_user_request db c pdu s
      else if pdu.command_id == 769
      then handle_client_msg_data db c pdu s
      else (s, [])

  -- The end of HandleLoginValidResponse: `owner` gets the connection `a`.
  unfoldable pub settle : ℕ → ℕ → MsgConn → ValidateRsp → State → State × List Effect
  settle owner a c rsp s =
      let s1 = change_user owner (λ u. record u { user_id = rsp.user_id; validate = true }) s in
      let s2 = add_im_user_by_id rsp.user_id owner s1 in
      let s3 = change_conn a (λ c. record c { user_id = rsp.user_id; open_ = true }) s2 in
      (
        change_user owner
            (λ u. del_unvalidate a (record u { conn_map = put c.handle a u.conn_map })) s3,
        Effect.answers_login c.handle 0 0 ∷ [],
      )

  -- A valid login on the connection `a` that `by_name` waits for: the user of the id takes it over,
  -- `by_name` itself if there is none.
  unfoldable pub accept_login : ℕ → ℕ → MsgConn → ValidateRsp → State → Outcome
  accept_login by_name a c rsp s =
      found (get_im_user_by_id rsp.user_id s) (some (settle by_name a c rsp s)) (λ p.
        let s1 = change_user by_name (del_unvalidate a) (change_user p (add_unvalidate a) s) in
        lookup by_name s1.users >>= λ u. some (
          settle p a c rsp
            (if length u.conn_map == 0 then remove_im_user_by_name rsp.user_name s1 else s1)))

  -- The sequence number of the answer is 0, since it is copied from the answer itself.
  unfoldable pub handle_login_valid_response : Request → State → Outcome
  handle_login_valid_response pdu s =
      let rsp = proto.validate_rsp pdu.body in
      elim (deserialize rsp.attach_data (length rsp.attach_data)) [
        | throw e ↦ some (s, Effect.throws ∷ [])
        | ok data_ ↦ found (get_im_user_by_name rsp.user_name s) (some (s, [])) (λ by_name.
            lookup by_name s.users >>= λ u.
            get_unvalidate_msg_conn u.unvalidate_conn_set data_.handle s >>= λ conn.
            found conn (some (s, [])) (λ a. lookup a s.conns >>= λ c.
            if c.open_
            then some (s, [])
            else if not (rsp.result_code == 0)
            then (let (s', closed) = close a c s in
                some (s', Effect.answers_login c.handle 6 0 ∷ closed))
            else accept_login by_name a c rsp s))
      ]

  unfoldable pub handle_buddy_list_all_user_response : Request → State → Outcome
  handle_buddy_list_all_user_response pdu s =
      let (user_id, attach) = proto.all_user_rsp pdu.body in
      elim (deserialize attach (length attach)) [
        | throw e ↦ some (s, Effect.throws ∷ [])
        | ok data_ ↦ found (get_im_user_by_id user_id s) (some (s, [])) (λ p.
            lookup p s.users >>= λ u. found (get_msg_conn_of u data_.handle) (some (s, [])) (λ a.
              lookup a s.conns >>= λ c. some (
                s,
                if c.open_
                    then Effect.forwards c.handle
                        (record pdu { body = proto.without_attach pdu.body })
                      ∷ []
                    else [],
              )))
      ]

  unfoldable pub handle_session_msg : Request → State → Outcome
  handle_session_msg pdu s =
      found (get_im_user_by_id (proto.msg_to pdu.body) s) (some (s, [])) (λ p.
        lookup p s.users >>= λ u. found (get_msg_conn u) (some (s, [])) (λ a.
          lookup a s.conns >>= λ c.
          some (s, if c.open_ then Effect.forwards c.handle pdu ∷ [] else [])))

  -- DBServConn::HandlePdu.
  unfoldable pub handle_db_pdu : Request → State → Outcome
  handle_db_pdu pdu s =
      if pdu.command_id == 1793
      then some (s, [])
      else if pdu.command_id == 1796
      then handle_login_valid_response pdu s
      else if pdu.command_id == 514
      then handle_buddy_list_all_user_response pdu s
      else if pdu.command_id == 769
      then handle_session_msg pdu s
      else some (s, [])
