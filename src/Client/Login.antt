-- ===== src/Client/Login.antt =====
-- The login of the client and its connection to a message server: login/relogin_manager.cpp,
-- login/login_http_server_operation.cpp, login/login_module.cpp, core/tcp_client_module.cpp,
-- user_list/user_list_module.cpp, chat/session_module.cpp and data_manager.cpp.
-- A function gives the next state with what it does: a message that is sent, a callback, an event for
-- the observers of a module, an operation for OperationManager. Protobuf messages are built and parsed
-- by parameters, as is the JSON of the login server.
use xx_chat.Base.{
  ℕ, ◌-◌, ◌^◌, Bool, true, false, not, Option, none, some, List, [], ◌∷◌, ◌++◌, ◌==◌, if◌then◌else◌,
}
use xx_chat.Base.Options.{found}
use xx_chat.Client.Events.{TimerEvent, same_text, register_timer_event, unregister_timer_event}

-- DataManager.
pub record UserInfo : Type 0 where
  pub user_id : ℕ
  pub user_name : List ℕ

pub record DataManager : Type 0 where
  pub cur_login_user_id : ℕ
  pub user_infos : List UserInfo
  pub login_name : List ℕ
  pub login_passwd : List ℕ
  pub msg_server_ip : List ℕ
  pub msg_server_port : ℕ

abbrev pub add_user_info : DataManager → UserInfo → DataManager
add_user_info d u = record d { user_infos = d.user_infos ++ u ∷ [] }

-- The first one with the name.
abbrev pub find_user : List UserInfo → List ℕ → Option UserInfo
find_user [] name = none
find_user (u ∷ us) name =
    let rest = find_user us name in if same_text name u.user_name then some u else rest

unfoldable pub get_user_info : DataManager → List ℕ → Option UserInfo
get_user_info d name = find_user d.user_infos name

abbrev pub set_login_user_info : DataManager → List ℕ → List ℕ → DataManager
set_login_user_info d name passwd = record d { login_name = name; login_passwd = passwd }

abbrev pub set_msg_server_info : DataManager → List ℕ → ℕ → DataManager
set_msg_server_info d ip port = record d { msg_server_ip = ip; msg_server_port = port }

-- What the connection and the modules do.
pub data Effect : Type 0 where
  sends : (service_id command_id : ℕ) → List ℕ → Effect
  closes : ℕ → Effect
  done : Bool → Effect
  notifies : (module_id event_id : ℕ) → List ℕ → Effect
  connects : List ℕ → ℕ → Effect

-- A message that came in.
pub record Pdu : Type 0 where
  pub command_id : ℕ
  pub body : List ℕ

pub record TcpClientModule : Type 0 where
  pub handle : ℕ
  pub username : List ℕ
  pub password : List ℕ
  pub client_conn : List ℕ
  pub timer_list : List TimerEvent
  pub has_timer : Bool

abbrev pub invalid_handle : ℕ
invalid_handle = 2 ^ 32 - 1

-- The name of the heartbeat's timer, and its callback.
abbrev pub heart_beat_name : List ℕ
heart_beat_name =
    84 ∷ 99 ∷ 112 ∷ 67 ∷ 108 ∷ 105 ∷ 101 ∷ 110 ∷ 116 ∷ 77 ∷ 111 ∷ 100 ∷ 117 ∷ 108 ∷ 101 ∷ 95 ∷ 72
    ∷ 101 ∷ 97 ∷ 114 ∷ 116 ∷ 66 ∷ 101 ∷ 97 ∷ 116 ∷ 77 ∷ 115 ∷ 103 ∷ 95 ∷ 84 ∷ 105 ∷ 109 ∷ 101 ∷ 114
    ∷ []

abbrev pub heart_beat_timer : TimerEvent
heart_beat_timer = record {
  timer_event_name = heart_beat_name;
  callback = 1;
  interval = 500;
  next_tick = 0;
}

abbrev pub remove_handle : List ℕ → ℕ → List ℕ
remove_handle [] h = []
remove_handle (k ∷ ks) h = let rest = remove_handle ks h in if k == h then rest else k ∷ rest

-- `handle`: what netlib_connect returns.
unfoldable pub do_login :
    TcpClientModule → List ℕ → ℕ → List ℕ → List ℕ → ℕ → TcpClientModule × List Effect
do_login m ip port username password handle = (
  record m {
    username = username;
    password = password;
    handle = handle;
    client_conn = if handle == invalid_handle then m.client_conn else handle ∷ m.client_conn;
  },
  connects ip port ∷ [],
)

unfoldable pub close : TcpClientModule → TcpClientModule × List Effect
close m =
    if m.handle == invalid_handle
    then (m, [])
    else (record m { client_conn = remove_handle m.client_conn m.handle }, closes m.handle ∷ [])

unfoldable pub start_send_heart_beat_msg : TcpClientModule → TcpClientModule
unfolding register_timer_event
start_send_heart_beat_msg m = record m {
  has_timer = true;
  timer_list = register_timer_event m.timer_list heart_beat_timer;
}

-- Without a timer UnRegisterTimerEvent does nothing.
unfoldable pub stop_send_heart_beat_msg : TcpClientModule → TcpClientModule
unfolding unregister_timer_event
stop_send_heart_beat_msg m =
    if m.has_timer
    then record m { timer_list = unregister_timer_event m.timer_list heart_beat_name }
    else m

-- The modules: 1 the login, 2 the connection, 3 the user list, 4 the sessions. The events have the
-- numbers of EventId.
unfoldable pub on_close : TcpClientModule → TcpClientModule × List Effect
unfolding close stop_send_heart_beat_msg
on_close m =
    let (m', out) = close m in (stop_send_heart_beat_msg m', out ++ notifies 2 4 (2 ∷ []) ∷ [])

-- The result of a login response: its code, and the user's id.
pub record LoginRes : Type 0 where
  pub result_code : ℕ
  pub user_id : ℕ

-- UserListModule::OnPacket, and SessionModule::OnPacket.
abbrev pub user_list_on_packet : Pdu → List Effect
user_list_on_packet pdu = if pdu.command_id == 514 then notifies 3 2 pdu.body ∷ [] else []

abbrev pub session_on_packet : Pdu → List Effect
session_on_packet pdu = notifies 4 3 pdu.body ∷ []

-- The messages that are sent are built by the first three parameters, from their fields; the last one
-- parses a login response.
module _ (login_req : List ℕ → List ℕ → List ℕ) (all_user_req : ℕ → List ℕ) (heart_beat : List ℕ)
    (parse_login_res : List ℕ → Option LoginRes) where
  unfoldable pub on_confirm : TcpClientModule → List Effect
  on_confirm m = sends 1 259 (login_req m.username m.password) ∷ []

  -- LoginModule::OnPacket and NotifyLoginDone.
  unfoldable pub login_on_packet : Pdu → List Effect
  login_on_packet pdu = found (parse_login_res pdu.body) [] (λ res.
      if not (res.result_code == 0)
      then []
      else sends 2 513 (all_user_req res.user_id) ∷ notifies 1 1 pdu.body ∷ [])

  unfoldable pub handle_login_response : TcpClientModule → Pdu → TcpClientModule × List Effect
  unfolding login_on_packet start_send_heart_beat_msg
  handle_login_response m pdu =
      found (parse_login_res pdu.body) (m, done false ∷ [])
        (λ res.
          if not (res.result_code == 0)
          then (m, done false ∷ [])
          else (start_send_heart_beat_msg m, done true ∷ login_on_packet pdu))

  unfoldable pub handle_packets : TcpClientModule → Pdu → TcpClientModule × List Effect
  handle_packets m pdu =
      if pdu.command_id == 514
      then (m, user_list_on_packet pdu)
      else if pdu.command_id == 769
      then (m, session_on_packet pdu)
      else (m, [])

  unfoldable pub handle_pdu : TcpClientModule → Pdu → TcpClientModule × List Effect
  unfolding handle_login_response handle_packets
  handle_pdu m pdu =
      if pdu.command_id == 1793
      then (m, [])
      else if pdu.command_id == 260
      then handle_login_response m pdu
      else handle_packets m pdu

  -- The callback of the heartbeat's timer.
  abbrev pub send_heart_beat : List Effect
  send_heart_beat = sends 7 1793 heart_beat ∷ []
