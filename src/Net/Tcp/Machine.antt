-- ===== src/Net/Tcp/Machine.antt =====
-- The life of a TcpConnection: every function that the user, the server or the event loop calls.
pub mod Handlers
pub mod Life
use xx_chat.Base.{
  ℕ, zero, suc, ◌+◌, ◌%◌, ◌-◌, ◌^◌, ◌≤◌, ◌<◌, ◌≡◌, refl, sym, ap, subst, ◌∙◌, Bool, true, false,
  not, ◌&&◌, ◌||◌, Option, none, some, List, [], ◌∷◌, ◌++◌, length, drop, ltb, leb, ◌==◌,
  if◌then◌else◌, arith, take, if_cases, ◌⊎◌, inl, inr, ==_iff, Bool-cases,
}
use xx_chat.Base.Options.{
  ◌>>=◌, Always, Always-none, Always-here, Always-bind, Always-map, Always-assert,
}
use xx_chat.Net.Buffer.{Buffer, sub_size, readable_bytes, append, retrieve, read_fd}
use xx_chat.Net.Channel.{
  Channel, Callbacks, call, has, poll_hup, poll_in, poll_err, poll_nval, poll_pri, poll_rdhup,
  poll_out, is_writing, enable_writing, disable_writing, disable_all, remove, handle_event,
  handle_event_with_guard,
}
use xx_chat.Net.Tcp.{
  TcpConnection, State, disconnected, connecting, connected, disconnecting, code, is, note, Effect,
  connection_callback, close_callback, message_callback, shutdown_write, queue_shutdown,
  queue_force_close, queue_write_complete, queue_high_water_mark, queue_send, Written, is_nonneg,
  taken, Attempt, write_directly, attempt, keep, send_in_loop, send, shutdown, shutdown_in_loop,
  force_close, force_close_in_loop, handle_close, connect_established, connect_destroyed,
  handle_read, handle_write, wrote, drained, on_event, handlers, waiting, new_connection,
}

-- A call: by the user, from a functor of the event loop, or by an event of the descriptor.
pub data Call : Type 0 where
  sends : Bool → List ℕ → Written → Call
  sends_queued : List ℕ → Written → Call
  shuts_down : Bool → Call
  shuts_down_queued : Call
  closes : Call
  closes_queued : Call
  established : Call
  destroyed : Call
  event : Bool → ℕ → Option (List ℕ) → Written → Call

unfoldable pub apply : TcpConnection → Call → Option TcpConnection
apply c (sends in_loop xs w) = send c in_loop xs w
apply c (sends_queued xs w) = send_in_loop c xs w
apply c (shuts_down in_loop) = some (shutdown c in_loop)
apply c shuts_down_queued = some (shutdown_in_loop c)
apply c closes = some (force_close c)
apply c closes_queued = force_close_in_loop c
apply c established = connect_established c
apply c destroyed = connect_destroyed c
apply c (event alive revents got w) = on_event c alive revents got w

unfoldable pub run : TcpConnection → List Call → Option TcpConnection
unfolding apply
run c [] = some c
run c (e ∷ es) = apply c e >>= λ c'. run c' es

-- The diagram of the states.
pub data Edge : State → State → Type 0 where
  establish : Edge connecting connected
  shut : Edge connected disconnecting
  close : Edge connected disconnected
  close_shut : Edge disconnecting disconnected

pub data Leads : State → State → Type 0 where
  here : {s : State} → Leads s s
  along : {s t u : State} → Edge s t → Leads t u → Leads s u

-- The calls of the connection callback.
unfoldable pub is_announced : Effect → ℕ
is_announced connection_callback = 1
is_announced _ = 0

unfoldable pub announced : List Effect → ℕ
announced [] = 0
announced (e ∷ es) = is_announced e + announced es

-- How many there are by a state: one when the connection is up, and one when it is down.
unfoldable pub due : State → ℕ
due connecting = 0
due connected = 1
due disconnecting = 1
due disconnected = 2

-- A part of the life from `c` to `r`.
pub record Follows (c r : TcpConnection) : Type 0 where
  pub leads : Leads c.state r.state
  pub balance : announced r.done + due c.state ≡ announced c.done + due r.state

-- Nothing but callbacks other than the connection's.
pub still :
    (c r : TcpConnection) → r.state ≡ c.state → announced r.done ≡ announced c.done → Follows c r
still c r s e = record {
  leads = subst (λ t. Leads c.state t) (sym s) here;
  balance = omega (arith, e, ap due s);
}

pub Leads-trans : {s t u : State} → Leads s t → Leads t u → Leads s u
Leads-trans here m = m
Leads-trans (along e l) m = along e (Leads-trans l m)

pub Follows-trans : {a b c : TcpConnection} → Follows a b → Follows b c → Follows a c
Follows-trans f g = record {
  leads = Leads-trans f.leads g.leads;
  balance = omega (arith, f.balance, g.balance);
}

pub Follows-refl : (c : TcpConnection) → Follows c c
Follows-refl c = still c c refl refl

-- Another callback, perhaps.
pub note_if-Follows :
    (b : Bool) (c : TcpConnection) (e : Effect)
    → is_announced e ≡ 0
    → Follows c (if b then note c e else c)
unfolding announced
note_if-Follows b c e h =
    if_cases (Follows c) b (λ _. still c (note c e) refl (omega (arith, h))) (λ _. Follows-refl c)

state_of : ℕ → State
state_of zero = disconnected
state_of (suc zero) = connecting
state_of (suc (suc zero)) = connected
state_of (suc (suc (suc n))) = disconnecting

state_of-code : (s : State) → state_of (code s) ≡ s
unfolding state_of
state_of-code disconnected = refl
state_of-code connecting = refl
state_of-code connected = refl
state_of-code disconnecting = refl

pub is_lem : (c : TcpConnection) (s : State) → is c s ≡ true → c.state ≡ s
is_lem c s e =
    sym (state_of-code c.state)
    ∙ ap state_of ((==_iff (code c.state) (code s)).0 e)
    ∙ state_of-code s

pub up_cases :
    (c : TcpConnection)
    → is c connected || is c disconnecting ≡ true
    → (c.state ≡ connected) ⊎ (c.state ≡ disconnecting)
up_cases c e = elim (Bool-cases (is c connected)) [
  | inl up ↦ inl (is_lem c connected up)
  | inr off ↦ inr (is_lem c disconnecting (ground arith))
]

-- Along one edge, with the callback that it is due.
pub moves :
    (c r : TcpConnection) {s t : State}
    → Edge s t
    → c.state ≡ s
    → r.state ≡ t
    → announced r.done + due s ≡ announced c.done + due t
    → Follows c r
moves c r {s} {t} e p q b = record {
  leads = subst (λ u. Leads u r.state) (sym p) (subst (λ u. Leads s u) (sym q) (along e here));
  balance = omega (arith, b, ap due p, ap due q);
}
