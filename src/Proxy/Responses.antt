-- ===== src/Proxy/Responses.antt =====
-- ProxyConn of xx_chat_server/src/db_proxy_server/proxy_conn.h and proxy_conn.cpp: how requests go to
-- the thread pool and answers come back to the connections.
-- A connection is known by its uuid. A message `P` and the table of handlers are parameters. The
-- queue of answers is only used under its mutex, so that its calls are in some order.
use xx_chat.Base.{
  ℕ, ◌+◌, ◌%◌, ◌^◌, Bool, Option, none, some, List, [], ◌∷◌, ◌++◌, ◌==◌, if◌then◌else◌, lookup,
  insert, update, erase, ltb,
}
use xx_chat.Base.Options.{found}

pub record ProxyConn : Type 0 where
  pub handle : ℕ
  pub uuid : ℕ
  pub last_send_tick : ℕ
  pub last_recv_tick : ℕ

-- What is done: a message is sent, a connection closed, a task given to the thread pool.
pub data Effect (P : Type 0) : Type 0 where
  sends : (uuid : ℕ) → P → Effect P
  closes : (uuid : ℕ) → Effect P
  queues : (uuid command_id : ℕ) → P → Effect P

pub record State (P : Type 0) : Type 0 where
  pub proxy_conn_map : List (ℕ × ProxyConn)
  pub uuid_conn_map : List (ℕ × ProxyConn)
  pub uuid_alloctor : ℕ
  -- A response without a message stands for a request that could not be parsed.
  pub response_pdu_list : List (ℕ × Option P)

abbrev pub invalid_handle : ℕ
invalid_handle = 4294967295

-- 0 is no uuid.
unfoldable pub next_uuid : ℕ → ℕ
next_uuid n = let i = (n + 1) % 2 ^ 32 in if i == 0 then (i + 1) % 2 ^ 32 else i

-- The constructor.
abbrev pub new_proxy_conn : ℕ → ProxyConn
new_proxy_conn now = record {
  handle = invalid_handle;
  uuid = 0;
  last_send_tick = now;
  last_recv_tick = now;
}

abbrev pub new_state : {P : Type 0} → State P
new_state = record {
  proxy_conn_map = [];
  uuid_conn_map = [];
  uuid_alloctor = 0;
  response_pdu_list = [];
}

module _ {P : Type 0} where
  unfoldable pub set_uuid : ProxyConn → State P → ProxyConn × State P
  set_uuid c s =
      let c' = record c { uuid = next_uuid s.uuid_alloctor } in
      (
        c',
        record s {
          uuid_alloctor = next_uuid s.uuid_alloctor;
          uuid_conn_map = insert (next_uuid s.uuid_alloctor) c' s.uuid_conn_map;
        },
      )

  unfoldable pub close : ProxyConn → State P → State P × List (Effect P)
  close c s = if c.handle == invalid_handle then (s, []) else (
    record s {
      proxy_conn_map = erase c.handle s.proxy_conn_map;
      uuid_conn_map = erase c.uuid s.uuid_conn_map;
    },
    closes c.uuid ∷ [],
  )

  -- SetUuid has run before: the entry of the uuid that still has the handle of the connection is the same
  -- object, and gets the new handle too.
  unfoldable pub on_connect : ProxyConn → ℕ → State P → ProxyConn × State P
  on_connect c handle s =
      let c' = record c { handle = handle } in
      (
        c',
        record s {
          proxy_conn_map = insert handle c' s.proxy_conn_map;
          uuid_conn_map =
              update c.uuid (λ d. if d.handle == c.handle then c' else d) s.uuid_conn_map;
        },
      )

  -- proxy_serv_callback on NETLIB_MSG_CONNECT: a new connection from the listening socket.
  unfoldable pub proxy_serv_callback : (handle now : ℕ) → State P → ProxyConn × State P
  unfolding set_uuid on_connect
  proxy_serv_callback handle now s =
      let (c, s') = set_uuid (new_proxy_conn now) s in on_connect c handle s'

  unfoldable pub get_proxy_conn_by_uuid : ℕ → State P → Option ProxyConn
  get_proxy_conn_by_uuid uuid s = lookup uuid s.uuid_conn_map

  -- A request: a heartbeat, a task for the pool, or one without a handler.
  unfoldable pub handle_pdu_buf : (ℕ → Bool) → ProxyConn → ℕ → P → List (Effect P)
  handle_pdu_buf has_handler c command_id pdu =
      if command_id == 1793
      then []
      else if has_handler command_id
      then queues c.uuid command_id pdu ∷ []
      else []

  unfoldable pub add_response_pdu : ℕ → Option P → State P → State P
  add_response_pdu conn_uuid pdu s = record s {
    response_pdu_list = s.response_pdu_list ++ ((conn_uuid, pdu) ∷ []);
  }

  -- What SendPdu notes in the connection of a uuid.
  unfoldable pub note_send : (now uuid : ℕ) → ProxyConn → State P → State P
  note_send now uuid c s = record s {
    proxy_conn_map = update c.handle (λ d. record d { last_send_tick = now }) s.proxy_conn_map;
    uuid_conn_map = update uuid (λ d. record d { last_send_tick = now }) s.uuid_conn_map;
  }

  -- One response: the connection, if it is still there, sends the message or is closed.
  unfoldable pub send_response : (now uuid : ℕ) → Option P → State P → State P × List (Effect P)
  unfolding note_send
  send_response now uuid none s = found (get_proxy_conn_by_uuid uuid s) (s, []) (λ c. close c s)
  send_response now uuid (some pdu) s =
      found (get_proxy_conn_by_uuid uuid s) (s, [])
        (λ c. (note_send now uuid c s, sends c.uuid pdu ∷ []))

  -- The loop of SendResponsePduList, which takes all responses out of the list.
  unfoldable pub send_responses : ℕ → List (ℕ × Option P) → State P → State P × List (Effect P)
  send_responses now [] s = (record s { response_pdu_list = [] }, [])
  send_responses now ((uuid, pdu) ∷ rest) s =
      let (s', out) = send_response now uuid pdu s in
      let (s'', more) = send_responses now rest s' in (s'', out ++ more)

  -- `now`: the clock, which is the same for all responses.
  unfoldable pub send_response_pdu_list : ℕ → State P → State P × List (Effect P)
  send_response_pdu_list now s = send_responses now s.response_pdu_list s

  -- proxy_loop_callback
  unfoldable pub proxy_loop_callback : ℕ → State P → State P × List (Effect P)
  unfolding send_response_pdu_list
  proxy_loop_callback now s = send_response_pdu_list now s

  -- OnTimer of a connection, which is written back where it is still in a map.
  unfoldable pub on_timer : ProxyConn → P → ℕ → State P → State P × List (Effect P)
  unfolding close
  on_timer c heart_beat curr_tick s =
      let beats = ltb ((c.last_send_tick + 5000) % 2 ^ 64) curr_tick in
      let c' : ProxyConn = if beats then record c { last_send_tick = curr_tick } else c in
      let s' : State P = record s {
        proxy_conn_map = update c.handle (λ d. c') s.proxy_conn_map;
        uuid_conn_map = update c.uuid (λ d. if d.handle == c.handle then c' else d) s.uuid_conn_map;
      } in
      let beat = if beats then sends c.uuid heart_beat ∷ [] else [] in
      let (s'', out) =
        if ltb ((c.last_recv_tick + 30000) % 2 ^ 64) curr_tick then close c' s' else (s', []) in
      (s'', beat ++ out)

  unfoldable pub on_timers : List (ℕ × ProxyConn) → P → ℕ → State P → State P × List (Effect P)
  unfolding on_timer
  on_timers [] heart_beat curr_tick s = (s, [])
  on_timers ((handle, c) ∷ more) heart_beat curr_tick s =
      let (s', out) = on_timer c heart_beat curr_tick s in
      let (s'', rest) = on_timers more heart_beat curr_tick s' in (s'', out ++ rest)

  unfoldable pub proxy_timer_callback : P → ℕ → State P → State P × List (Effect P)
  unfolding on_timers
  proxy_timer_callback heart_beat curr_tick s = on_timers s.proxy_conn_map heart_beat curr_tick s

  -- ProxyTask::Run in a thread of the pool: without a message the connection is to be closed; `run`: the
  -- responses that the handler adds.
  unfoldable pub run_task : Option P → (P → ℕ → List (ℕ × Option P)) → ℕ → State P → State P
  unfolding add_response_pdu
  run_task none run conn_uuid s = add_response_pdu conn_uuid none s
  run_task (some pdu) run conn_uuid s = add_each (run pdu conn_uuid) s
    where
      add_each : List (ℕ × Option P) → State P → State P
      add_each [] s = s
      add_each ((uuid, response) ∷ more) s = add_each more (add_response_pdu uuid response s)
