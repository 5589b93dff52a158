-- ===== src/Servers/Master.antt =====
-- The master among the connections to the route servers (g_master_rs_conn of route_server_conn.cpp),
-- over any sequence of calls.
use xx_chat.Base.{
  ℕ, ◌+◌, ◌%◌, ◌^◌, ◌≡◌, refl, sym, ap, ◌∙◌, Bool, true, false, Option, none, some, List, [], ◌∷◌,
  ltb, ◌==◌, if◌then◌else◌, if_cases, arith, get_elem?, lookup, put, lookup-put,
}
use mathlib.Core.Option.{some-injective}
use xx_chat.Base.Options.{found, found_cases, Always, Always-none, Always-here, Always-bind}
use xx_chat.Servers.{ServInfo, open_conn, oldest, update_master_route_serv_conn}
use xx_chat.Servers.RouteConns.{
  State, RouteServConn, is_open, update_master, connect, close, shut, confirm, on_confirm, on_timer,
  send_pdu, Pdu, heart_beat, check_server,
}

is_open-put :
    (conns : List (ℕ × RouteServConn)) (a b : ℕ) (c : RouteServConn)
    → is_open (put a c conns) b ≡ (if a == b then c.opened else is_open conns b)
is_open-put conns a b c =
    ap (λ o. found o false (λ (d : RouteServConn). d.opened)) (lookup-put a b c conns)
    ∙ if_cases
        (λ o.
          found o false (λ (d : RouteServConn). d.opened)
          ≡ (if a == b then c.opened else is_open conns b))
        (a == b) (λ e. rw e) (λ e. rw e)

pub record MasterIsOpen (s : State) : Type 0 where
  pub master_open : (m : ℕ) → s.master ≡ some m → is_open s.conns m ≡ true

open_conn-open : (p : ℕ → Bool) (s : ServInfo ℕ) (m : ℕ) → open_conn p s ≡ some m → p m ≡ true
open_conn-open p s m =
    found_cases (λ o. o ≡ some m → p m ≡ true) s.serv_conn (λ e h. cc)
      (λ c e.
        if_cases (λ o. o ≡ some m → p m ≡ true) (p c) (λ f h. ap p (sym (some-injective c m h)) ∙ f)
          (λ f h. cc))

oldest-open :
    (p : ℕ → Bool) (connect_time : ℕ → ℕ) (servers : List (ServInfo ℕ)) (best : Option ℕ)
    (time m : ℕ)
    → ((b : ℕ) → best ≡ some b → p b ≡ true)
    → oldest p connect_time servers best time ≡ some m
    → p m ≡ true
unfolding oldest
oldest-open p connect_time [] best time m h e = h m e
oldest-open p connect_time (s ∷ servers) best time m h e =
    let older = found (open_conn p s) false (λ c. ltb (connect_time c) time) in
    oldest-open p connect_time servers (if older then open_conn p s else best) _ m
      (if_cases (λ (o : Option ℕ). (b : ℕ) → o ≡ some b → p b ≡ true) older
        (λ f b. open_conn-open p s b) (λ f. h))
      e

pub update_master-MasterIsOpen : (s : State) → MasterIsOpen (update_master s)
unfolding update_master update_master_route_serv_conn
update_master-MasterIsOpen s = record {
  master_open = λ m. oldest-open _ _ s.server_list none 18446744073709551615 m (λ b e. absurd cc);
}

-- Another state of an object that is not shut by it.
put-open :
    (s : State) (a : ℕ) (c : RouteServConn)
    → MasterIsOpen s
    → (is_open s.conns a ≡ true → s.master ≡ some a → c.opened ≡ true)
    → (m : ℕ) → s.master ≡ some m
    → is_open (put a c s.conns) m ≡ true
put-open s a c inv h m e = is_open-put s.conns a m c ∙ ground (arith, inv.master_open m e, h)

send_pdu-MasterIsOpen :
    (s : State) (a : ℕ) (c : RouteServConn) (now : ℕ) (p : Pdu)
    → MasterIsOpen s
    → (is_open s.conns a ≡ true → c.opened ≡ true)
    → MasterIsOpen (send_pdu a c now p s)
unfolding send_pdu
send_pdu-MasterIsOpen s a c now p inv h = record {
  master_open = put-open s a (record c { last_send_tick = now }) inv (λ o e. h o);
}

connect-MasterIsOpen :
    (s : State) (a handle i now : ℕ)
    → lookup a s.conns ≡ none
    → MasterIsOpen s
    → MasterIsOpen (connect a handle i now s)
unfolding connect
connect-MasterIsOpen s a handle i now fresh inv =
    let closed : is_open s.conns a ≡ false =
      ap (λ o. found o false (λ (c : RouteServConn). c.opened)) fresh in
    if_cases MasterIsOpen (handle == 4294967295)
      (λ f. record { master_open = put-open s a _ inv (λ o e. absurd (cc)) })
      (λ f. record { master_open = put-open s a _ inv (λ o e. absurd (cc)) })

close-MasterIsOpen :
    (s : State) (a : ℕ) (c : RouteServConn) → MasterIsOpen s → MasterIsOpen (close a c s)
unfolding close shut
close-MasterIsOpen s a c inv =
    if_cases MasterIsOpen (found s.master false (λ m. m == a))
      (λ f. update_master-MasterIsOpen (shut a c s))
      (λ f. record {
        master_open =
            put-open s a (record c { opened = false }) inv
              (λ o e.
                let same : (a == a) ≡ false = sym (ap (λ r. found r false (λ m. m == a)) e) ∙ f in
                absurd (ground (arith, same)));
      })

check_server-MasterIsOpen :
    (s : State) (a handle i now : ℕ)
    → lookup a s.conns ≡ none
    → MasterIsOpen s
    → MasterIsOpen (check_server a handle i now s)
unfolding check_server
check_server-MasterIsOpen s a handle i now fresh inv =
    found_cases MasterIsOpen (get_elem? s.server_list i) (λ e. inv)
      (λ server e.
        let due = found server.serv_conn (ltb server.reconnect_cnt server.idle_cnt) (λ c. false) in
        record {
          master_open =
              (if_cases MasterIsOpen due (λ f. connect-MasterIsOpen s a handle i now fresh inv)
                (λ f. inv)).master_open;
        })

confirm-MasterIsOpen :
    (s : State) (a : ℕ) (c : RouteServConn) (now : ℕ)
    → MasterIsOpen s
    → Always MasterIsOpen (confirm a c now s)
unfolding confirm
confirm-MasterIsOpen s a c now inv =
    found_cases (Always MasterIsOpen) (get_elem? s.server_list c.server_index)
      (λ e. Always-none MasterIsOpen)
      (λ server e. Always-here MasterIsOpen _ (record {
        master_open =
            put-open s a (record c { opened = true; connect_time = now }) inv (λ o f. refl);
      }))

on_confirm-MasterIsOpen :
    (s : State) (a : ℕ) (c : RouteServConn) (now : ℕ) (online : List (ℕ × ℕ))
    → MasterIsOpen s
    → Always MasterIsOpen (on_confirm a c now online s)
unfolding on_confirm
on_confirm-MasterIsOpen s a c now online inv = Always-bind MasterIsOpen (confirm a c now s) (λ s' e.
    let kept = (confirm-MasterIsOpen s a c now inv).of_result s' e in
    Always-here MasterIsOpen _ (
      send_pdu-MasterIsOpen _ a _ now _
        (found_cases MasterIsOpen s'.master (λ f. update_master-MasterIsOpen s') (λ m f. kept))
        (λ o. refl)))

on_timer-MasterIsOpen :
    (s : State) (now a : ℕ) (c : RouteServConn)
    → lookup a s.conns ≡ some c
    → MasterIsOpen s
    → MasterIsOpen (on_timer now a c s)
unfolding on_timer
on_timer-MasterIsOpen s now a c e inv =
    let opens : is_open s.conns a ≡ c.opened =
      ap (λ o. found o false (λ (d : RouteServConn). d.opened)) e in
    let sent : MasterIsOpen (
        if ltb ((c.last_send_tick + 5000) % 2 ^ 64) now then send_pdu a c now heart_beat s else s) =
      if_cases MasterIsOpen (ltb ((c.last_send_tick + 5000) % 2 ^ 64) now)
        (λ f. send_pdu-MasterIsOpen s a c now heart_beat inv (λ o. sym opens ∙ o)) (λ f. inv) in
    if_cases MasterIsOpen (ltb ((c.last_recv_tick + 30000) % 2 ^ 64) now)
      (λ f. close-MasterIsOpen _ a _ sent) (λ f. sent)

-- What can happen to the connections of the message server.
pub data Step : State → State → Type 0 where
  checks :
      (s : State) (a handle i now : ℕ)
      → lookup a s.conns ≡ none
      → Step s (check_server a handle i now s)
  confirms :
      (s t : State) (a : ℕ) (c : RouteServConn) (now : ℕ) (online : List (ℕ × ℕ))
      → lookup a s.conns ≡ some c
      → on_confirm a c now online s ≡ some t
      → Step s t
  closes :
      (s : State) (a : ℕ) (c : RouteServConn) → lookup a s.conns ≡ some c → Step s (close a c s)
  ticks :
      (s : State) (now a : ℕ) (c : RouteServConn)
      → lookup a s.conns ≡ some c
      → Step s (on_timer now a c s)

pub data Run : State → State → Type 0 where
  stops : (s : State) → Run s s
  goes : (s t u : State) → Step s t → Run t u → Run s u

step-MasterIsOpen : (s t : State) → Step s t → MasterIsOpen s → MasterIsOpen t
step-MasterIsOpen s t (checks _ a handle i now e) inv =
    check_server-MasterIsOpen s a handle i now e inv
step-MasterIsOpen s t (confirms _ _ a c now online e f) inv =
    (on_confirm-MasterIsOpen s a c now online inv).of_result t f
step-MasterIsOpen s t (closes _ a c e) inv = close-MasterIsOpen s a c inv
step-MasterIsOpen s t (ticks _ now a c e) inv = on_timer-MasterIsOpen s now a c e inv

-- Whatever is connected, confirmed, closed or timed out, in any order, beginning where the master, if
-- there is one, is an open connection: the master, if there is one, is an open connection.
pub run-MasterIsOpen : (s t : State) → Run s t → MasterIsOpen s → MasterIsOpen t
run-MasterIsOpen s t (stops _) inv = inv
run-MasterIsOpen s t (goes _ t' _ step run) inv =
    run-MasterIsOpen t' t run (step-MasterIsOpen s t' step inv)
