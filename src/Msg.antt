-- ===== src/Msg.antt =====
-- MsgConn, ImUser and ImUserManager of xx_chat_server/src/msg_server (msg_conn, im_user), and the
-- handlers of DBServConn (db_server_conn.cpp) that use them.
-- A pointer is the address of an object in the state. A MsgConn lives as long as its handle is in
-- g_msg_conn_map, which owns it; an ImUser is never deleted. `none` is the use of a dead object. A
-- name is a number that stands for it. The parsers of the protobuf messages are parameters.
pub mod Attach
pub mod Handlers
pub mod Closed
pub mod AttachTrip
mod Tests
use xx_chat.Base.{
  ℕ, ◌+◌, ◌%◌, ◌^◌, Bool, true, false, ◌&&◌, ◌||◌, not, Option, none, some, List, [], ◌∷◌, ◌++◌,
  length, ltb, ◌==◌, if◌then◌else◌, lookup, put, insert, update, erase,
}
use xx_chat.Base.Options.{◌>>=◌, ◌>>◌, found}

pub record MsgConn : Type 0 where
  pub handle : ℕ
  pub login_name : ℕ
  pub user_id : ℕ
  pub login_time : ℕ
  pub open_ : Bool
  pub online_status : ℕ
  pub last_recv_tick : ℕ

pub record ImUser : Type 0 where
  pub user_id : ℕ
  pub user_name : ℕ
  pub validate : Bool
  -- by handle
  pub conn_map : List (ℕ × ℕ)
  -- a set
  pub unvalidate_conn_set : List (ℕ × Unit {0})

pub record State : Type 0 where
  -- the objects, by address
  pub conns : List (ℕ × MsgConn)
  pub users : List (ℕ × ImUser)
  -- g_msg_conn_map
  pub msg_conn_map : List (ℕ × ℕ)
  -- the maps of ImUserManager
  pub user_id_map : List (ℕ × ℕ)
  pub user_name_map : List (ℕ × ℕ)

pub record Request : Type 0 where
  pub command_id : ℕ
  pub seq_num : ℕ
  pub body : List ℕ

-- What is sent: to the client of a connection or to a database server.
pub data Effect : Type 0 where
  answers_login : (conn result_code seq_num : ℕ) → Effect
  forwards : (conn : ℕ) → Request → Effect
  asks_db : Request → Effect
  validates : (user_name password handle seq_num : ℕ) → Effect
  closes : (handle : ℕ) → Effect
  -- a PduException leaves the handler
  throws : Effect

abbrev pub invalid_handle : ℕ
invalid_handle = 4294967295

unfoldable pub get_im_user_by_id : ℕ → State → Option ℕ
get_im_user_by_id user_id s = lookup user_id s.user_id_map

unfoldable pub get_im_user_by_name : ℕ → State → Option ℕ
get_im_user_by_name user_name s = lookup user_name s.user_name_map

-- A name or an id that is there keeps its user.
unfoldable pub add_im_user_by_name : ℕ → ℕ → State → State
add_im_user_by_name user_name user s =
    found (get_im_user_by_name user_name s)
      (record s { user_name_map = insert user_name user s.user_name_map }) (λ u. s)

unfoldable pub add_im_user_by_id : ℕ → ℕ → State → State
add_im_user_by_id user_id user s =
    found (get_im_user_by_id user_id s)
      (record s { user_id_map = insert user_id user s.user_id_map }) (λ u. s)

unfoldable pub remove_im_user_by_name : ℕ → State → State
remove_im_user_by_name user_name s = record s { user_name_map = erase user_name s.user_name_map }

-- GetUnValidateMsgConn: each object up to the one with the handle is looked at.
unfoldable pub get_unvalidate_msg_conn : List (ℕ × Unit {0}) → ℕ → State → Option (Option ℕ)
get_unvalidate_msg_conn [] handle s = some none
get_unvalidate_msg_conn ((a, u) ∷ set) handle s =
    let rest = get_unvalidate_msg_conn set handle s in
    lookup a s.conns >>= λ c. if c.handle == handle then some (some a) else rest

-- GetMsgConn of a handle, and without one: the first of the map.
unfoldable pub get_msg_conn_of : ImUser → ℕ → Option ℕ
get_msg_conn_of u handle = lookup handle u.conn_map

unfoldable pub get_msg_conn : ImUser → Option ℕ
get_msg_conn u = elim u.conn_map [ [] ↦ none | (h, a) ∷ m ↦ some a ]

-- The connections of a user that are open; each is looked at.
unfoldable pub conn_cnt : List (ℕ × ℕ) → State → Option ℕ
conn_cnt [] s = some 0
conn_cnt ((h, a) ∷ m) s =
    let rest = conn_cnt m s in
    lookup a s.conns >>= λ c. rest >>= λ n. some (if c.open_ then n + 1 else n)

-- GetOnlineUserInfo: a user id and a status for each open connection of a validated user.
unfoldable pub online_conns : ImUser → List (ℕ × ℕ) → State → Option (List (ℕ × ℕ))
online_conns u [] s = some []
online_conns u ((h, a) ∷ m) s =
    let rest = online_conns u m s in
    lookup a s.conns >>= λ c.
    rest >>= λ r. some (if c.open_ then (u.user_id, c.online_status) ∷ r else r)

unfoldable pub get_online_user_info : List (ℕ × ℕ) → State → Option (List (ℕ × ℕ))
get_online_user_info [] s = some []
get_online_user_info ((i, p) ∷ m) s =
    let rest = get_online_user_info m s in
    lookup p s.users >>= λ u. (if u.validate then online_conns u u.conn_map s else some []) >>= λ r.
    rest >>= λ rs. some (r ++ rs)

-- GetUserConnCnt: the connections of each validated user, and their sum.
unfoldable pub get_user_conn_cnt : List (ℕ × ℕ) → State → Option (List (ℕ × ℕ) × ℕ)
get_user_conn_cnt [] s = some ([], 0)
get_user_conn_cnt ((i, p) ∷ m) s =
    let rest = get_user_conn_cnt m s in
    lookup p s.users >>= λ u.
    if u.validate
    then (conn_cnt u.conn_map s >>= λ n. rest >>= λ (l, t). some ((u.user_id, n) ∷ l, n + t))
    else rest

-- MsgConn::Close. Erasing the handle deletes the object.
unfoldable pub close : ℕ → MsgConn → State → State × List Effect
close a c s = if c.handle == invalid_handle then (s, []) else (
  record s { msg_conn_map = erase c.handle s.msg_conn_map; conns = erase a s.conns },
  closes c.handle ∷ [],
)

-- A new MsgConn at the address `a`.
unfoldable pub on_connect : ℕ → ℕ → ℕ → State → State
on_connect a handle now s =
    let c : MsgConn = record {
      handle = handle;
      login_name = 0;
      user_id = 0;
      login_time = now;
      open_ = false;
      online_status = 2;
      last_recv_tick = now;
    } in
    record s { conns = put a c s.conns; msg_conn_map = insert handle a s.msg_conn_map }

unfoldable pub on_timer : ℕ → ℕ → MsgConn → State → State × List Effect
on_timer curr_tick a c s =
    if ltb ((c.last_recv_tick + 120000) % 2 ^ 64) curr_tick
    then close a c s
    else if not c.open_ && ltb ((c.login_time + 15000) % 2 ^ 64) curr_tick
    then close a c s
    else (s, [])

-- msg_conn_timer_callback: OnTimer of each connection that the map had at the start.
unfoldable pub on_timers : ℕ → List (ℕ × ℕ) → State → Option (State × List Effect)
unfolding on_timer
on_timers curr_tick [] s = some (s, [])
on_timers curr_tick ((handle, a) ∷ more) s = lookup a s.conns >>= λ c.
    let (s', out) = on_timer curr_tick a c s in
    on_timers curr_tick more s' >>= λ (s'', rest). some (s'', out ++ rest)

unfoldable pub msg_conn_timer_callback : ℕ → State → Option (State × List Effect)
unfolding on_timers
msg_conn_timer_callback curr_tick s = on_timers curr_tick s.msg_conn_map s

unfoldable pub remove_im_user_by_id : ℕ → State → State
remove_im_user_by_id user_id s = record s { user_id_map = erase user_id s.user_id_map }

-- GetMsgConnByHandle: no connection of a user that is not there; `none` is a user that is dead.
unfoldable pub get_msg_conn_by_handle : (user_id handle : ℕ) → State → Option (Option ℕ)
unfolding get_im_user_by_id get_msg_conn_of
get_msg_conn_by_handle user_id handle s =
    found (get_im_user_by_id user_id s) (some none)
      (λ p. lookup p s.users >>= λ u. some (get_msg_conn_of u handle))
