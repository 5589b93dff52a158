-- ===== src/Route.antt =====
-- RouteConn and UserInfo of xx_chat_server/src/route_server (route_conn, user_info): which connections
-- to message servers a user has.
-- A connection is its address, and so an element of the set of a user.
pub mod Users
pub mod ClientTypes
mod Tests
use xx_chat.Base.{
  ℕ, ◌+◌, ◌-◌, ◌%◌, ◌^◌, Bool, true, false, ◌||◌, not, Option, none, some, List, [], ◌∷◌, ◌++◌, ltb,
  ◌==◌, if◌then◌else◌, lookup, put, insert, update, erase,
}
use xx_chat.Base.Options.{found}

pub record RouteConn : Type 0 where
  pub handle : ℕ
  pub last_send_tick : ℕ
  pub last_recv_tick : ℕ

pub record UserInfo : Type 0 where
  -- a set, by the addresses of the connections
  pub route_conn_set : List (ℕ × Unit {0})
  -- the count of each client type
  pub client_type_list : List (ℕ × ℕ)

abbrev pub new_user_info : UserInfo
new_user_info = record { route_conn_set = []; client_type_list = [] }

unfoldable pub add_route_conn : ℕ → UserInfo → UserInfo
add_route_conn conn u = record u { route_conn_set = insert conn tt u.route_conn_set }

unfoldable pub remove_route_conn : ℕ → UserInfo → UserInfo
remove_route_conn conn u = record u { route_conn_set = erase conn u.route_conn_set }

unfoldable pub find_route_conn : ℕ → UserInfo → Bool
find_route_conn conn u = found (lookup conn u.route_conn_set) false (λ c. true)

unfoldable pub add_client_type : ℕ → UserInfo → UserInfo
add_client_type client_type u =
    found (lookup client_type u.client_type_list)
      (record u { client_type_list = put client_type 1 u.client_type_list })
      (λ n. record u {
        client_type_list = update client_type (λ n. (n + 1) % 2 ^ 32) u.client_type_list;
      })

unfoldable pub remove_client_type : ℕ → UserInfo → UserInfo
remove_client_type client_type u = found (lookup client_type u.client_type_list) u (λ n.
    let count = (n + 2 ^ 32 - 1) % 2 ^ 32 in
    if ltb 0 count
    then record u { client_type_list = update client_type (λ n. count) u.client_type_list }
    else record u { client_type_list = erase client_type u.client_type_list })

unfoldable pub get_count_by_client_type : ℕ → UserInfo → ℕ
get_count_by_client_type client_type u = found (lookup client_type u.client_type_list) 0 (λ n. n)

pub record State : Type 0 where
  -- g_route_conn_map: the address of a connection by its handle
  pub route_conn_map : List (ℕ × ℕ)
  -- g_user_map
  pub user_map : List (ℕ × UserInfo)

abbrev pub invalid_handle : ℕ
invalid_handle = 4294967295

unfoldable pub on_connect : ℕ → RouteConn → ℕ → State → RouteConn × State
on_connect a c handle s =
    (record c { handle = handle }, record s { route_conn_map = insert handle a s.route_conn_map })

-- The loop of Close over all users: one without another connection is removed.
unfoldable pub remove_conn : ℕ → List (ℕ × UserInfo) → List (ℕ × UserInfo)
remove_conn a [] = []
remove_conn a ((i, u) ∷ m) =
    let rest = remove_conn a m in
    elim (remove_route_conn a u).route_conn_set [
      | [] ↦ rest
      | e ∷ es ↦ (i, remove_route_conn a u) ∷ rest
    ]

unfoldable pub close : ℕ → RouteConn → State → State
close a c s =
    let s' =
      if c.handle == invalid_handle
      then s
      else record s { route_conn_map = erase c.handle s.route_conn_map } in
    record s' { user_map = remove_conn a s'.user_map }

unfoldable pub get_user_info : ℕ → State → Option UserInfo
get_user_info user_id s = lookup user_id s.user_map

-- The connections that SendPduToUser of `a` sends on: all of the user, or all but itself.
unfoldable pub others : ℕ → Bool → List (ℕ × Unit {0}) → List ℕ
others a all [] = []
others a all ((b, t) ∷ set) =
    let rest = others a all set in if all || not (b == a) then b ∷ rest else rest

unfoldable pub send_pdu_to_user : ℕ → ℕ → Bool → State → List ℕ
send_pdu_to_user a user_id all s =
    found (get_user_info user_id s) [] (λ u. others a all u.route_conn_set)

-- OnTimer: whether a heartbeat is sent, and whether the connection is closed.
unfoldable pub on_timer : RouteConn → ℕ → Bool × Bool
on_timer c curr_tick = (
  ltb ((c.last_send_tick + 5000) % 2 ^ 64) curr_tick,
  ltb ((c.last_recv_tick + 30000) % 2 ^ 64) curr_tick,
)

-- The loop of route_serv_timer_callback over the connections by address: those that are sent a
-- heartbeat, and the state.
unfoldable pub on_timers : List (ℕ × RouteConn) → ℕ → State → List ℕ × State
unfolding on_timer close
on_timers [] curr_tick s = ([], s)
on_timers ((a, c) ∷ more) curr_tick s =
    let (beats, late) = on_timer c curr_tick in
    let (sent, s') = on_timers more curr_tick (if late then close a c s else s) in
    (if beats then a ∷ sent else sent, s')
