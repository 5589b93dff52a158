-- ===== src/Route/Tests.antt =====
-- The theorems on the route server at concrete values.
use xx_chat.Base.{◌≢◌, true, [], ◌∷◌, All, Each}
use xx_chat.Route.{RouteConn, State, close, send_pdu_to_user}
use xx_chat.Route.Users.{IsWithout, close-IsWithout, send_pdu_to_user-close}

-- The user 1 has the connections 10 and 20, the user 2 only 10.
abbrev state : State
state = record {
  route_conn_map = (5, 10) ∷ (6, 20) ∷ [];
  user_map =
      (1, record { route_conn_set = (10, tt) ∷ (20, tt) ∷ []; client_type_list = [] })
      ∷ (2, record { route_conn_set = (10, tt) ∷ []; client_type_list = [] })
      ∷ [];
}

abbrev conn : RouteConn
conn = record { handle = 5; last_send_tick = 0; last_recv_tick = 0 }

close-IsWithout_example : Each (IsWithout 10) (close 10 conn state).user_map
close-IsWithout_example = close-IsWithout 10 conn state

send_pdu_to_user-close_example :
    All (λ x. x ≢ 10) (send_pdu_to_user 30 1 true (close 10 conn state))
send_pdu_to_user-close_example = send_pdu_to_user-close 10 conn state 30 1 true
