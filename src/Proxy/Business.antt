-- ===== src/Proxy/Business.antt =====
-- The handlers of the database proxy, xx_chat_server/src/db_proxy_server/business (inter_login.cpp,
-- login.cpp, user_action.cpp, user_model.cpp and session.cpp), and handler_map.cpp.
-- The database is a parameter: it takes the text of a query and gives the rows of t_user, or none if
-- the query fails. Texts are lists of bytes. A protobuf message is the list of its fields.
use xx_chat.Base.{
  ℕ, Bool, true, false, ◌&&◌, Option, none, some, List, [], ◌∷◌, ◌++◌, ◌==◌, if◌then◌else◌,
}
use xx_chat.Base.Options.{◌>>=◌, found}
use xx_chat.Proxy.Pool.{DbPool, Taken, get_db_conn, release_db_conn}

pub record Row : Type 0 where
  pub id : ℕ
  pub name : List ℕ
  pub password : List ℕ

-- The queries up to the name, and for all users.
abbrev pub select_user : List ℕ
select_user =
    115 ∷ 101 ∷ 108 ∷ 101 ∷ 99 ∷ 116 ∷ 32 ∷ 42 ∷ 32 ∷ 102 ∷ 114 ∷ 111 ∷ 109 ∷ 32 ∷ 116 ∷ 95 ∷ 117
    ∷ 115 ∷ 101 ∷ 114 ∷ 32 ∷ 119 ∷ 104 ∷ 101 ∷ 114 ∷ 101 ∷ 32 ∷ 110 ∷ 97 ∷ 109 ∷ 101 ∷ 61 ∷ 39 ∷ []

abbrev pub select_all : List ℕ
select_all =
    115 ∷ 101 ∷ 108 ∷ 101 ∷ 99 ∷ 116 ∷ 32 ∷ 42 ∷ 32 ∷ 102 ∷ 114 ∷ 111 ∷ 109 ∷ 32 ∷ 116 ∷ 95 ∷ 117
    ∷ 115 ∷ 101 ∷ 114 ∷ []

abbrev pub same_text : List ℕ → List ℕ → Bool
same_text [] [] = true
same_text [] (y ∷ ys) = false
same_text (x ∷ xs) [] = false
same_text (x ∷ xs) (y ∷ ys) = (x == y) && same_text xs ys

-- The id and the password of the first row; without one the initial values of the variables.
abbrev pub first_row : List Row → ℕ × List ℕ
first_row [] = (0, [])
first_row (r ∷ rows) = (r.id, r.password)

-- Whether a login is right, and the id of the user if it is.
abbrev pub check_password : Option (List Row) → List ℕ → Option ℕ
check_password none password = none
check_password (some rows) password =
    let (id, result_passwd) = first_row rows in
    if same_text password result_passwd then some id else none

-- A value that takes a connection of the pool to compute: none if the call waits for one, `missing`
-- without one; the connection is given back.
abbrev pub using_conn : {A : Type 0} → Taken → A → A → Option (A × DbPool)
using_conn (Taken.waits p) missing value = none
using_conn (Taken.failed p) missing value = some (missing, p)
using_conn (Taken.got conn p) missing value = some (value, release_db_conn conn p)

module _ (execute_query : List ℕ → Option (List Row)) where
  -- InterLoginStrategy::DoLogin.
  unfoldable pub do_login : Option ℕ → List ℕ → List ℕ → DbPool → Option (Option ℕ × DbPool)
  do_login made name password p =
      using_conn (get_db_conn made p) none
        (check_password (execute_query (select_user ++ name ++ (39 ∷ []))) password)

  unfoldable pub get_user_infos : Option ℕ → DbPool → Option (List Row × DbPool)
  get_user_infos made p =
      using_conn (get_db_conn made p) [] (found (execute_query select_all) [] (λ rows. rows))

-- A request as the handlers see it, and what they answer.
pub record Request : Type 0 where
  pub seq_num : ℕ
  pub body : List ℕ

pub data Message : Type 0 where
  validate_rsp :
      (user_name attach_data : List ℕ) (result_code : ℕ) (user_id : Option ℕ) (seq_num : ℕ)
      → Message
  -- a request that could not be parsed: only the result code is set
  server_error : (seq_num : ℕ) → Message
  all_user_rsp : (user_id : ℕ) (users : List Row) (attach_data : List ℕ) (seq_num : ℕ) → Message
  session : Request → Message

pub data Handler : Type 0 where
  login all_user session_msg : Handler

-- HandlerMapManager::GetHandler, with the table that Init makes.
unfoldable pub get_handler : ℕ → Option Handler
get_handler pdu_type =
    if pdu_type == 1795
    then some Handler.login
    else if pdu_type == 513
    then some Handler.all_user
    else if pdu_type == 769
    then some Handler.session_msg
    else none

-- The answer of DoLogin to a parsed request.
abbrev pub login_answer : List ℕ → List ℕ → ℕ → Option ℕ → Message
login_answer name attach seq_num none = Message.validate_rsp name attach 1 none seq_num
login_answer name attach seq_num (some id) = Message.validate_rsp name attach 0 (some id) seq_num

module _ (execute_query : List ℕ → Option (List Row))
    (parse_validate_req : List ℕ → Option (List ℕ × List ℕ × List ℕ))
    (parse_all_user_req : List ℕ → Option (ℕ × List ℕ)) where
  -- A handler: the pool and the message that it adds to the responses, if it adds one.
  unfoldable pub handle_login : Option ℕ → Request → DbPool → Option (DbPool × Option Message)
  handle_login made pdu p =
      found (parse_validate_req pdu.body) (some (p, some (Message.server_error pdu.seq_num)))
        (λ (name, password, attach). do_login execute_query made name password p >>= λ (user, p').
          some (p', some (login_answer name attach pdu.seq_num user)))

  unfoldable pub get_all_user : Option ℕ → Request → DbPool → Option (DbPool × Option Message)
  get_all_user made pdu p =
      found (parse_all_user_req pdu.body) (some (p, none)) (λ (user_id, attach).
        get_user_infos execute_query made p >>= λ (users, p').
        some (p', some (Message.all_user_rsp user_id users attach pdu.seq_num)))

  unfoldable pub process_session_msg : Request → DbPool → Option (DbPool × Option Message)
  process_session_msg pdu p = some (p, some (Message.session pdu))
