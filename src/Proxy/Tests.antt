-- ===== src/Proxy/Tests.antt =====
-- The theorems on the database proxy at concrete values.
use xx_chat.Base.{ℕ, ◌≡◌, refl, none, some, Option, List, [], ◌∷◌, lookup}
use xx_chat.Base.Options.{found}
use xx_chat.Proxy.Pool.{DbPool, new_db_pool, init, get_db_conn}
use xx_chat.Proxy.PoolLeases.{IsShared, Step, Steps, interleaved-IsShared}
use xx_chat.Proxy.Responses.{
  State, Effect, new_state, proxy_serv_callback, set_uuid, next_uuid, on_connect, close,
  add_response_pdu, get_proxy_conn_by_uuid, note_send, send_response, send_responses,
  send_response_pdu_list,
}
use xx_chat.Proxy.Keyed.{Reached}
use xx_chat.Base.{insert, place, update, erase}
use xx_chat.Proxy.Workers.{
  WorkThread, Phase, pushes, turns, stops, run, stop, tasks, run-tasks, stop_lem,
}
use xx_chat.Base.{true}
use xx_chat.Proxy.Business.{Row, Request, Message, handle_login}
use xx_chat.Proxy.Logins.{Judged, handle_login_lem}
use xx_chat.Proxy.Answers.{on_uuid, due, send_response_pdu_list-due}

-- The first connection of a pool with 10 and 20 is taken.
abbrev pool : DbPool
pool = record { cur_db_conn_cnt = 2; max_db_conn_cnt = 8; free_list = 20 ∷ [] }

one_step : Steps (init (some 10 ∷ some 20 ∷ []) (new_db_pool 8)).0 [] pool (10 ∷ [])
unfolding init new_db_pool get_db_conn
one_step =
    Steps.then_ (record { cur_db_conn_cnt = 2; max_db_conn_cnt = 8; free_list = 10 ∷ 20 ∷ [] }) []
      pool (10 ∷ []) Steps.done (Step.takes _ _ [] none 10 (λ a e. cc) refl)

interleaved-IsShared_example : IsShared pool (10 ∷ [])
interleaved-IsShared_example = interleaved-IsShared 8 10 20 pool (10 ∷ []) refl one_step

-- A connection is accepted, and responses to two are added; a message is a number.
abbrev accepted : State ℕ
accepted = (proxy_serv_callback 51 0 new_state).1

abbrev state : State ℕ
state = add_response_pdu 1 none (add_response_pdu 2 (some 8) (add_response_pdu 1 (some 7) accepted))

is_reached : Reached state
unfolding proxy_serv_callback set_uuid on_connect next_uuid lookup insert place update
is_reached = Reached.responds 1 none _ (
    Reached.responds 2 (some 8) _
      (Reached.responds 1 (some 7) _ (Reached.accepts 51 0 new_state refl refl Reached.starts)))

-- The failed request closes the connection.
closes_failed : (send_response_pdu_list 5 state).1 ≡ Effect.sends 1 7 ∷ Effect.closes 1 ∷ []
unfolding proxy_serv_callback set_uuid next_uuid on_connect add_response_pdu send_response_pdu_list
    send_responses send_response note_send get_proxy_conn_by_uuid close insert place update erase
    lookup
closes_failed = refl

send_response_pdu_list-due_example :
    on_uuid 1 (send_response_pdu_list 5 state).1
    ≡ found (get_proxy_conn_by_uuid 1 state) [] (λ c. due 1 state.response_pdu_list)
send_response_pdu_list-due_example = send_response_pdu_list-due 5 1 state is_reached

-- Two rows, and the password of the first.
abbrev request : Request
request = record { seq_num = 4; body = [] }

abbrev user_row : ℕ → List ℕ → Row
user_row id password = record { id = id; name = []; password = password }

abbrev rows : List Row
rows = user_row 9 (1 ∷ 2 ∷ []) ∷ user_row 5 [] ∷ []

abbrev two_rows : List ℕ → Option (List Row)
two_rows q = some rows

handle_login_lem_example :
    (p' : DbPool) × (m : Message) × (handle_login two_rows
        (λ b. some (88 ∷ [], 1 ∷ 2 ∷ [], []))
        (λ b. none)
        none
        request
        pool
      ≡ some (p', some m))
    × IsShared p' (10 ∷ [])
    × Judged rows (88 ∷ []) (1 ∷ 2 ∷ []) [] 4 m
handle_login_lem_example =
    handle_login_lem two_rows (λ b. some (88 ∷ [], 1 ∷ 2 ∷ [], [])) (λ b. none) none request pool
      (10 ∷ []) 20 [] (88 ∷ []) (1 ∷ 2 ∷ []) [] rows
      (interleaved-IsShared 8 10 20 pool (10 ∷ []) refl one_step) refl refl refl

-- A thread that has run the task 1 and has 2 to do, and one that waits.
abbrev busy : WorkThread ℕ
busy = record { phase = Phase.ready; started = true; task_list = 2 ∷ []; ran = 1 ∷ [] }

run-tasks_example : tasks (run (pushes 3 ∷ turns ∷ stops ∷ turns ∷ []) busy) ≡ 1 ∷ 2 ∷ 3 ∷ []
run-tasks_example = run-tasks (pushes 3 ∷ turns ∷ stops ∷ turns ∷ []) busy

abbrev idle : WorkThread ℕ
idle = record { phase = Phase.waiting; started = true; task_list = []; ran = 1 ∷ [] }

stop_lem_example :
    ((run (turns ∷ turns ∷ []) (stop idle)).phase ≡ Phase.waiting)
    × ((run (turns ∷ turns ∷ pushes 5 ∷ turns ∷ turns ∷ []) (stop idle)).phase ≡ Phase.ended)
    × ((run (turns ∷ turns ∷ pushes 5 ∷ turns ∷ turns ∷ []) (stop idle)).ran ≡ 1 ∷ 5 ∷ [])
stop_lem_example = stop_lem (turns ∷ turns ∷ []) idle 5 (record { waits = refl; empty = refl }) refl
