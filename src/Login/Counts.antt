-- ===== src/Login/Counts.antt =====
-- The total number of users that the login server keeps, and those of the message servers.
use xx_chat.Base.{
  ℕ, ◌+◌, ◌%◌, ◌^◌, ◌<◌, ◌≡◌, refl, ap, ◌∙◌, Bool, true, false, none, some, List, [], ◌∷◌, ◌&&◌,
  ltb, ◌==◌, if_cases, arith, lookup, place, insert, insert-missing, insert-found, update,
  erase_found,
}
use xx_chat.Login.{
  MsgServInfo, LoginConn, Request, State, Effect, add32, sub32, remove_users, close, beat, on_timer,
  on_timers, login_conn_timer_callback, on_close, handle_msg_serv_request, handle_msg_serv_info,
  handle_user_cnt_update, handle_pdu, on_connect2,
}
use xx_chat.Base.Options.{found, found_cases}

-- The users of all message servers in the table.
unfoldable pub users : List (ℕ × MsgServInfo) → ℕ
users [] = 0
users ((k, i) ∷ m) = i.cur_conn_cnt + users m

-- The total is the number of users of the message servers in the table, as a uint32_t.
abbrev pub IsCounted : State → Type 0
IsCounted s = s.total_online_user_cnt ≡ users s.msg_serv_info % 2 ^ 32

users-place :
    (k : ℕ) (i : MsgServInfo) (m : List (ℕ × MsgServInfo))
    → users (place k i m) ≡ i.cur_conn_cnt + users m
unfolding users place
users-place k i [] = refl
users-place k i ((j, w) ∷ m) = ground (arith, users-place k i m)

users-insert :
    (k : ℕ) (i : MsgServInfo) (m : List (ℕ × MsgServInfo))
    → lookup k m ≡ none
    → users (insert k i m) ≡ i.cur_conn_cnt + users m
users-insert k i m h = ap users (insert-missing k i m h) ∙ users-place k i m

users-erase_found :
    (k : ℕ) (i : MsgServInfo) (m : List (ℕ × MsgServInfo))
    → lookup k m ≡ some i
    → users m ≡ i.cur_conn_cnt + users (erase_found k m)
unfolding users erase_found lookup
users-erase_found k i [] h = cc
users-erase_found k i ((j, w) ∷ m) h = ground (arith, users-erase_found k i m)

users-update :
    (k : ℕ) (f : MsgServInfo → MsgServInfo) (i : MsgServInfo) (m : List (ℕ × MsgServInfo))
    → lookup k m ≡ some i
    → users (update k f m) + i.cur_conn_cnt ≡ users m + (f i).cur_conn_cnt
unfolding users update lookup
users-update k f i [] h = cc
users-update k f i ((j, w) ∷ m) h = ground (arith, users-update k f i m)

remove_users-IsCounted : (k : ℕ) (s : State) → IsCounted s → IsCounted (remove_users k s)
unfolding remove_users
remove_users-IsCounted k s h =
    found_cases IsCounted (lookup k s.msg_serv_info) (λ e. h)
      (λ i e. omega (arith, users-erase_found k i s.msg_serv_info e, h))

close-IsCounted : (c : LoginConn) (s : State) → IsCounted s → IsCounted (close c s).0
unfolding close
close-IsCounted c s h =
    if_cases (λ (r : State × List Effect). IsCounted r.0) (c.handle == 4294967295) (λ e. h)
      (λ e.
        if_cases (λ (r : State × List Effect). IsCounted r.0) (c.conn_type == 1) (λ e'. h)
          (λ e'. remove_users-IsCounted c.handle _ h))

beat-IsCounted : (c : LoginConn) (now : ℕ) (s : State) → IsCounted s → IsCounted (beat c now s).1
unfolding beat
beat-IsCounted c now s h =
    if_cases (λ (r : LoginConn × State × List Effect). IsCounted r.1) _ (λ e. h) (λ e. h)

on_timer-IsCounted :
    (c : LoginConn) (now : ℕ) (s : State) → IsCounted s → IsCounted (on_timer c now s).0
unfolding on_timer
on_timer-IsCounted c now s h =
    if_cases (λ (r : State × List Effect). IsCounted r.0) (c.conn_type == 1)
      (λ e.
        if_cases (λ (r : State × List Effect). IsCounted r.0) _ (λ e'. close-IsCounted c s h)
          (λ e'. h))
      (λ e.
        let b = beat-IsCounted c now s h in
        if_cases (λ (r : State × List Effect). IsCounted r.0)
          (ltb (((beat c now s).0.last_recv_tick + 30000) % 2 ^ 64) now)
          (λ e'. close-IsCounted (beat c now s).0 (beat c now s).1 b) (λ e'. b))

on_timers-IsCounted :
    (m : List (ℕ × LoginConn)) (now : ℕ) (s : State) → IsCounted s → IsCounted (on_timers m now s).0
unfolding on_timers
on_timers-IsCounted [] now s h = h
on_timers-IsCounted ((k, c) ∷ m) now s h =
    on_timers-IsCounted m now _ (on_timer-IsCounted c now s h)

timer-IsCounted :
    (now : ℕ) (s : State) → IsCounted s → IsCounted (login_conn_timer_callback now s).0
unfolding login_conn_timer_callback
timer-IsCounted now s h = on_timers-IsCounted _ now _ (on_timers-IsCounted _ now s h)

-- What happens to the process: its timer fires, a connection is made, gets a message or is closed.
pub data Call : Type 0 where
  timer : (now : ℕ) → Call
  connects : LoginConn → (handle conn_type : ℕ) → Call
  receives : LoginConn → Request → Call
  closed : LoginConn → Call

module _ (parse_info : List ℕ → MsgServInfo) (parse_action : List ℕ → ℕ) where
  info-IsCounted :
      (c : LoginConn) (pdu : Request) (s : State)
      → IsCounted s
      → lookup c.handle s.msg_serv_info ≡ none
      → IsCounted (handle_msg_serv_info parse_info parse_action c pdu s)
  unfolding handle_msg_serv_info
  info-IsCounted c pdu s h fresh = omega (
    arith,
    users-insert c.handle
        (record (parse_info pdu.body) { port = (parse_info pdu.body).port % 2 ^ 16 })
        s.msg_serv_info fresh,
  )

  update-IsCounted :
      (c : LoginConn) (pdu : Request) (s : State)
      → IsCounted s
      → IsCounted (handle_user_cnt_update parse_info parse_action c pdu s)
  unfolding handle_user_cnt_update
  update-IsCounted c pdu s h =
      found_cases IsCounted (lookup c.handle s.msg_serv_info) (λ e. h)
        (λ i e.
          if_cases IsCounted (parse_action pdu.body == 1)
            (λ e'. omega (
              arith,
              h,
              users-update c.handle (λ j. record j { cur_conn_cnt = add32 j.cur_conn_cnt 1 }) i
                  s.msg_serv_info e,
            ))
            (λ e'. omega (
              arith,
              h,
              users-update c.handle (λ j. record j { cur_conn_cnt = sub32 j.cur_conn_cnt 1 }) i
                  s.msg_serv_info e,
            )))

  handle_pdu-IsCounted :
      (c : LoginConn) (pdu : Request) (s : State)
      → IsCounted s
      → ((pdu.command_id == 1801) ≡ true → lookup c.handle s.msg_serv_info ≡ none)
      → IsCounted (handle_pdu parse_info parse_action c pdu s).0
  unfolding handle_pdu handle_msg_serv_request
  handle_pdu-IsCounted c pdu s h fresh =
      if_cases (λ (r : State × List Effect). IsCounted r.0) (pdu.command_id == 1793) (λ e. h)
        (λ e.
          if_cases (λ (r : State × List Effect). IsCounted r.0) (pdu.command_id == 1801)
            (λ e1. info-IsCounted c pdu s h (fresh e1))
            (λ e1.
              if_cases (λ (r : State × List Effect). IsCounted r.0) (pdu.command_id == 1803)
                (λ e2. update-IsCounted c pdu s h)
                (λ e2.
                  if_cases (λ (r : State × List Effect). IsCounted r.0) (pdu.command_id == 257)
                    (λ e3. close-IsCounted c s h) (λ e3. h))))

  -- The process after a call.
  abbrev pub step : Call → State → State
  step (timer now) s = (login_conn_timer_callback now s).0
  step (connects c handle conn_type) s = (on_connect2 c handle conn_type s).1
  step (receives c pdu) s = (handle_pdu parse_info parse_action c pdu s).0
  step (closed c) s = (on_close c s).0

  abbrev pub run : List Call → State → State
  run [] s = s
  run (call ∷ calls) s = run calls (step call s)

  -- A message server announces itself on a connection on which it already did.
  abbrev pub repeats : Call → State → Bool
  repeats (receives c pdu) s =
      pdu.command_id == 1801 && found (lookup c.handle s.msg_serv_info) false (λ i. true)
  repeats call s = false

  abbrev pub NoneRepeats : List Call → State → Type 0
  NoneRepeats [] s = Unit {0}
  NoneRepeats (call ∷ calls) s = (repeats call s ≡ false) × NoneRepeats calls (step call s)

  fresh_lem :
      (c : LoginConn) (pdu : Request) (s : State)
      → repeats (receives c pdu) s ≡ false
      → (pdu.command_id == 1801) ≡ true
      → lookup c.handle s.msg_serv_info ≡ none
  fresh_lem c pdu s h e = ground arith

  step-IsCounted :
      (call : Call) (s : State) → repeats call s ≡ false → IsCounted s → IsCounted (step call s)
  unfolding on_connect2 on_close
  step-IsCounted (timer now) s h k = timer-IsCounted now s k
  step-IsCounted (connects c handle conn_type) s h k =
      if_cases IsCounted (conn_type == 1) (λ e. k) (λ e. k)
  step-IsCounted (receives c pdu) s h k = handle_pdu-IsCounted c pdu s k (fresh_lem c pdu s h)
  step-IsCounted (closed c) s h k = close-IsCounted c s k

  -- Whatever connections are made, get messages, time out and are closed, the total number of online
  -- users stays the sum of the users of the message servers in the table, as a uint32_t, if it is so
  -- at first and no server announces itself on a connection where it already did.
  pub run-IsCounted :
      (calls : List Call) (s : State) → IsCounted s → NoneRepeats calls s → IsCounted (run calls s)
  run-IsCounted [] s h k = h
  run-IsCounted (call ∷ calls) s h (k, ks) =
      run-IsCounted calls (step call s) (step-IsCounted call s k h) ks

  -- A message server with users that announces itself again on a connection with an entry makes the
  -- total wrong: its number of users is added, while the table keeps the old entry.
  pub announced_twice :
      (c : LoginConn) (pdu : Request) (s : State) (i : MsgServInfo)
      → lookup c.handle s.msg_serv_info ≡ some i
      → 0 < (parse_info pdu.body).cur_conn_cnt
      → (parse_info pdu.body).cur_conn_cnt < 2 ^ 32
      → IsCounted s
      → ¬ IsCounted (handle_msg_serv_info parse_info parse_action c pdu s)
  unfolding handle_msg_serv_info
  announced_twice c pdu s i h more small k =
      let kept = ap users (
        insert-found c.handle
          (record (parse_info pdu.body) { port = (parse_info pdu.body).port % 2 ^ 16 }) i
          s.msg_serv_info h) in
      λ z. omega (arith, kept, z, k, more, small)
