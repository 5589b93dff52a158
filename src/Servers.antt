-- ===== src/Servers.antt =====
-- xx_chat_server/src/base/serv_info.h: the servers that a process connects to, and when it connects
-- again; and the functions of msg_server/db_server_conn.cpp, login_server_conn.cpp and
-- route_server_conn.cpp that go through such a list.
-- What a connection object keeps is a parameter `C`, and so is the object that `Connect` makes for
-- an index. A uint32_t wraps at 2^32.
pub mod Backoff
pub mod Pick
pub mod Conns
pub mod RouteConns
pub mod Master
pub mod Oldest
mod Tests
use xx_chat.Base.{
  ℕ, zero, suc, ◌+◌, ◌-◌, ◌*◌, ◌/◌, ◌%◌, ◌^◌, Bool, true, false, Option, none, some, List, [], ◌∷◌,
  length, get_elem?, set, ltb, leb, ◌==◌, if◌then◌else◌,
}
use xx_chat.Base.Options.{◌>>=◌, found}

pub record ServInfo (C : Type 0) : Type 0 where
  pub server_ip : List ℕ
  pub server_port : ℕ
  pub idle_cnt : ℕ
  pub reconnect_cnt : ℕ
  pub serv_conn : Option C

abbrev pub max_reconnect_cnt : ℕ
max_reconnect_cnt = 64

abbrev pub min_reconnect_cnt : ℕ
min_reconnect_cnt = 4

module _ {C : Type 0} where
  -- `Connect` to the server of an index.
  module _ (connect : List ℕ → ℕ → ℕ → C) where
    abbrev pub connected : ServInfo C → ℕ → ServInfo C
    connected s i = record s { serv_conn = some (connect s.server_ip s.server_port i) }

    unfoldable pub serv_init : List (ServInfo C) → ℕ → List (ServInfo C)
    serv_init [] i = []
    serv_init (s ∷ servers) i =
        record (connected s i) { idle_cnt = 0; reconnect_cnt = min_reconnect_cnt / 2 }
        ∷ serv_init servers (i + 1)

    -- One server at one tick of the timer.
    unfoldable pub check_one : ServInfo C → ℕ → ServInfo C
    check_one s i =
        found s.serv_conn
          (let s' = record s { idle_cnt = (s.idle_cnt + 1) % 2 ^ 32 } in
            if ltb s.reconnect_cnt s.idle_cnt then connected s' i else s')
          (λ c. s)

    unfoldable pub serv_check_reconnect : List (ServInfo C) → ℕ → List (ServInfo C)
    serv_check_reconnect [] i = []
    serv_check_reconnect (s ∷ servers) i = check_one s i ∷ serv_check_reconnect servers (i + 1)

  -- One server whose connection is closed.
  unfoldable pub reset_one : ServInfo C → ServInfo C
  reset_one s =
      let doubled = (s.reconnect_cnt * 2) % 2 ^ 32 in
      record s {
        idle_cnt = 0;
        serv_conn = none;
        reconnect_cnt = if ltb max_reconnect_cnt doubled then max_reconnect_cnt else doubled;
      }

  unfoldable pub serv_reset : List (ServInfo C) → ℕ → List (ServInfo C)
  serv_reset servers serv_index =
      if leb (length servers) serv_index
      then servers
      else found (get_elem? servers serv_index) servers (λ s. set servers serv_index (reset_one s))

  module _ (is_open : C → Bool) where
    -- The open connection of a server.
    abbrev pub open_conn : ServInfo C → Option C
    open_conn s = found s.serv_conn none (λ c. if is_open c then some c else none)

    -- The loops of is_login_server_available and is_route_server_available.
    unfoldable pub is_available : List (ServInfo C) → Bool
    is_available [] = false
    is_available (s ∷ servers) =
        let rest = is_available servers in found (open_conn s) rest (λ c. true)

    -- The first loop of get_db_server_conn_in_range: the index where it stops, with `n` to go.
    -- `none` is the exception of `at`.
    unfoldable pub find_open : List (ServInfo C) → ℕ → ℕ → Option ℕ
    find_open servers i zero = some i
    find_open servers i (suc n) =
        let rest = find_open servers (i + 1) n in
        found (get_elem? servers i) none (λ s. found (open_conn s) rest (λ c. some i))

    -- What it returns. The second loop looks at the same index again: it ends at once if the
    -- connection there is open, and this is all that it ever ends with.
    unfoldable pub get_db_server_conn_in_range : List (ServInfo C) → ℕ → ℕ → Option (Option C)
    get_db_server_conn_in_range servers start_pos stop_pos =
        find_open servers start_pos (stop_pos - start_pos) >>= λ i.
        if i == stop_pos
        then some none
        else found (get_elem? servers i) none (λ s. found (open_conn s) none (λ c. some (some c)))

    -- The connection of the first range with one, else of the second.
    abbrev pub first_of : Option (Option C) → Option (Option C) → Option (Option C)
    first_of first second = first >>= λ conn. found conn second (λ c. some (some c))

    unfoldable pub get_db_serv_conn_for_login : List (ServInfo C) → ℕ → ℕ → Option (Option C)
    get_db_serv_conn_for_login servers login_count count =
        first_of (get_db_server_conn_in_range servers 0 login_count)
          (get_db_server_conn_in_range servers login_count count)

    unfoldable pub get_db_serv_conn : List (ServInfo C) → ℕ → ℕ → Option (Option C)
    get_db_serv_conn servers login_count count =
        first_of (get_db_server_conn_in_range servers login_count count)
          (get_db_server_conn_in_range servers 0 login_count)

    -- The connections that send_to_all_login_server and send_to_all_route_server send on.
    unfoldable pub send_to_all : List (ServInfo C) → List C
    send_to_all [] = []
    send_to_all (s ∷ servers) =
        let rest = send_to_all servers in found (open_conn s) rest (λ c. c ∷ rest)

    -- The loop of update_master_route_serv_conn, by the time when a connection was made.
    unfoldable pub oldest : (C → ℕ) → List (ServInfo C) → Option C → ℕ → Option C
    oldest connect_time [] best time = best
    oldest connect_time (s ∷ servers) best time =
        let older = found (open_conn s) false (λ c. ltb (connect_time c) time) in
        oldest connect_time servers (if older then open_conn s else best)
          (if older then found (open_conn s) time connect_time else time)

    unfoldable pub update_master_route_serv_conn : (C → ℕ) → List (ServInfo C) → Option C
    update_master_route_serv_conn connect_time servers =
        oldest connect_time servers none 18446744073709551615
