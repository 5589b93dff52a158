-- ===== src/Msg/Closed.antt =====
-- What becomes of a message to a user: after the login of a connection, and after its end.
use xx_chat.Base.{
  ℕ, ◌≡◌, ap, ◌∙◌, true, false, none, some, [], ◌∷◌, ◌==◌, lookup, put, place, insert, update,
  lookup-update, lookup-insert, lookup-erase, ==_refl,
}
use xx_chat.Msg.{
  MsgConn, ImUser, State, Request, Effect, get_im_user_by_id, add_im_user_by_id, get_msg_conn,
  close,
}
use xx_chat.Msg.Handlers.{
  ValidateRsp, Protobuf, del_unvalidate, accept_login, settle, handle_session_msg,
}

-- Close takes the connection out of g_msg_conn_map, which deletes it, but out of no ImUser: if it is
-- the first of its user, the next message to this user uses the deleted object.
pub session_after_close :
    (proto : Protobuf) (pdu : Request) (s : State) (a p : ℕ) (c : MsgConn) (u : ImUser)
    → (c.handle == 4294967295) ≡ false
    → get_im_user_by_id (proto.msg_to pdu.body) s ≡ some p
    → lookup p s.users ≡ some u
    → get_msg_conn u ≡ some a
    → handle_session_msg proto pdu (close a c s).0 ≡ none
unfolding close handle_session_msg get_im_user_by_id
session_after_close proto pdu s a p c u valid by_id at_p first =
    rw (valid, by_id, at_p, first, lookup-erase a a s.conns, ==_refl a)

-- The user after a valid login on its first connection.
abbrev logged_in : ℕ → MsgConn → ValidateRsp → ImUser → ImUser
logged_in a c rsp u =
    del_unvalidate a
      (record u { user_id = rsp.user_id; validate = true; conn_map = put c.handle a u.conn_map })

first_lem :
    (a : ℕ) (c : MsgConn) (rsp : ValidateRsp) (u : ImUser)
    → u.conn_map ≡ []
    → get_msg_conn (logged_in a c rsp u) ≡ some a
unfolding get_msg_conn put lookup place
first_lem a c rsp u e = ap (λ m. get_msg_conn (record u { conn_map = put c.handle a m })) e

-- A valid login on a live connection of a user who has no other one, with an id that no user has yet,
-- is answered on it; in the state that the login leaves, a message to this id is forwarded to the
-- client of the connection, and changes nothing.
pub session_after_login :
    (proto : Protobuf) (pdu : Request) (s : State) (by_name a : ℕ) (c : MsgConn) (u : ImUser)
    (rsp : ValidateRsp)
    → get_im_user_by_id rsp.user_id s ≡ none
    → lookup by_name s.users ≡ some u
    → u.conn_map ≡ []
    → lookup a s.conns ≡ some c
    → proto.msg_to pdu.body ≡ rsp.user_id
    → (s' : State) × (accept_login proto by_name a c rsp s
        ≡ some (s', Effect.answers_login c.handle 0 0 ∷ []))
      × (handle_session_msg proto pdu s' ≡ some (s', Effect.forwards c.handle pdu ∷ []))
unfolding accept_login settle handle_session_msg get_im_user_by_id add_im_user_by_id
session_after_login proto pdu s by_name a c u rsp no_id at_name no_conn live to =
    let g1 : ImUser → ImUser = λ w. record w { user_id = rsp.user_id; validate = true } in
    let g2 : ImUser → ImUser =
      λ w. del_unvalidate a (record w { conn_map = put c.handle a w.conn_map }) in
    let f : MsgConn → MsgConn = λ w. record w { user_id = rsp.user_id; open_ = true } in
    let s' : State = record s {
      users = update by_name g2 (update by_name g1 s.users);
      user_id_map = insert rsp.user_id by_name s.user_id_map;
      conns = update a f s.conns;
    } in
    let id : lookup rsp.user_id (insert rsp.user_id by_name s.user_id_map) ≡ some by_name =
      lookup-insert rsp.user_id by_name s.user_id_map no_id in
    let at_id : lookup (proto.msg_to pdu.body) (insert rsp.user_id by_name s.user_id_map)
        ≡ some by_name =
      ap (λ k. lookup k (insert rsp.user_id by_name s.user_id_map)) to ∙ id in
    let user : lookup by_name (update by_name g2 (update by_name g1 s.users))
        ≡ some (logged_in a c rsp u) =
      lookup-update by_name g2 (update by_name g1 s.users) (g1 u)
        (lookup-update by_name g1 s.users u at_name) in
    let first : get_msg_conn (logged_in a c rsp u) ≡ some a = first_lem a c rsp u no_conn in
    let conn : lookup a (update a f s.conns) ≡ some (f c) = lookup-update a f s.conns c live in
    (s', rw no_id, rw (at_id, user, first, conn))
