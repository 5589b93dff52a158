-- ===== src/Net/Tcp/Machine/Life.antt =====
-- Whole lives of a TcpConnection.
use xx_chat.Base.{
  ℕ, ◌≡◌, refl, ap, Bool, true, false, not, ◌&&◌, ◌||◌, Option, none, some, List, [], ◌∷◌, ◌==◌,
  arith, if_cases,
}
use xx_chat.Base.Options.{Always, Always-here, Always-bind, Always-map}
use xx_chat.Net.Buffer.{Buffer}
use xx_chat.Net.Channel.{
  is_reading, call, has, poll_hup, poll_in, poll_err, poll_nval, poll_pri, poll_rdhup, poll_out,
  is_writing, remove, handle_event, handle_event_with_guard,
}
use xx_chat.Net.Tcp.{
  TcpConnection, disconnected, connecting, connected, disconnecting, code, is, Written, shutdown,
  shutdown_in_loop, force_close, handle_close, connect_destroyed, handle_read, handle_write,
  on_event, handlers, new_connection,
}
use xx_chat.Net.Tcp.Machine.{
  Call, sends, sends_queued, shuts_down, shuts_down_queued, closes, closes_queued, established,
  destroyed, event, apply, run, Leads, announced, due, Follows, Follows-trans, Follows-refl,
}
use xx_chat.Net.Tcp.Machine.Handlers.{
  handle_close-Follows, shutdown_in_loop-Follows, force_close-Follows, shutdown-Follows,
  force_close_in_loop-Follows, connect_established-Follows, connect_destroyed-Follows,
  send_in_loop-Follows, send-Follows, handle_read-Follows, handle_write-Follows,
}

-- A callback of the channel, if it is due.
called-Follows :
    (c d : TcpConnection) (b : Bool) (f : TcpConnection → Option TcpConnection)
    → Follows c d
    → ((e : TcpConnection) → Always (Follows e) (f e))
    → Always (Follows c) (call b (some f) d)
called-Follows c d false f p h = Always-here (Follows c) d p
called-Follows c d true f p h = Always-map (λ r g. Follows-trans p g) (h d)

guarded-Follows :
    (c : TcpConnection) (revents : ℕ) (got : Option (List ℕ)) (w : Written)
    → Always (Follows c) (handle_event_with_guard (handlers got w) revents c)
unfolding handle_event_with_guard handlers
guarded-Follows c revents got w =
    let P = Follows c in
    let b1 = has revents poll_hup && not (has revents poll_in) in
    let b2 = has revents poll_err || has revents poll_nval in
    let b3 = has revents poll_in || has revents poll_pri || has revents poll_rdhup in
    let h1 = called-Follows c c b1 handle_close (Follows-refl c) handle_close-Follows in
    Always-bind P (call b1 (some handle_close) c) (λ d p1.
      let f = h1.of_result d p1 in
      let h2 = called-Follows c d b2 some f (λ e. Always-here (Follows e) e (Follows-refl e)) in
      Always-bind P (call b2 (some some) d) (λ d2 p2.
        let f2 = h2.of_result d2 p2 in
        let read : TcpConnection → Option TcpConnection = λ s. handle_read s got in
        let h3 = called-Follows c d2 b3 read f2 (λ e. handle_read-Follows e got) in
        Always-bind P (call b3 (some read) d2) (λ d3 p3.
          called-Follows c d3 (has revents poll_out) (λ s. handle_write s w) (h3.of_result d3 p3)
            (λ e. handle_write-Follows e w))))

on_event-Follows :
    (c : TcpConnection) (alive : Bool) (revents : ℕ) (got : Option (List ℕ)) (w : Written)
    → Always (Follows c) (on_event c alive revents got w)
unfolding on_event handle_event
on_event-Follows c alive revents got w =
    let P = Follows c in
    let guarded = guarded-Follows c revents got w in
    if_cases (Always P) c.channel.tied
      (λ _. if_cases (Always P) alive (λ _. guarded) (λ _. Always-here P c (Follows-refl c)))
      (λ _. guarded)

apply-Follows : (c : TcpConnection) (e : Call) → Always (Follows c) (apply c e)
unfolding apply
apply-Follows c (sends in_loop xs w) = send-Follows c in_loop xs w
apply-Follows c (sends_queued xs w) = send_in_loop-Follows c xs w
apply-Follows c (shuts_down in_loop) =
    Always-here (Follows c) (shutdown c in_loop) (shutdown-Follows c in_loop)
apply-Follows c shuts_down_queued =
    Always-here (Follows c) (shutdown_in_loop c) (shutdown_in_loop-Follows c)
apply-Follows c closes = Always-here (Follows c) (force_close c) (force_close-Follows c)
apply-Follows c closes_queued = force_close_in_loop-Follows c
apply-Follows c established = connect_established-Follows c
apply-Follows c destroyed = connect_destroyed-Follows c
apply-Follows c (event alive revents got w) = on_event-Follows c alive revents got w

run-Follows : (c : TcpConnection) (es : List Call) → Always (Follows c) (run c es)
unfolding run
run-Follows c [] = Always-here (Follows c) c (Follows-refl c)
run-Follows c (e ∷ es) = Always-bind (Follows c) (apply c e) (λ d p.
    Always-map (λ r g. Follows-trans ((apply-Follows c e).of_result d p) g) (run-Follows d es))

-- Whatever calls and events come in whatever order, a new connection moves along the edges
-- of the diagram, and the connection callback has been called once if it is up, twice if it is down again, and never before.
pub run_life :
    (fd : ℕ) (input output : Buffer) (es : List Call) (r : TcpConnection)
    → run (new_connection fd input output) es ≡ some r
    → Leads connecting r.state × (announced r.done ≡ due r.state)
unfolding new_connection announced due
run_life fd input output es r e =
    let f = (run-Follows (new_connection fd input output) es).of_result r e in
    (f.leads, omega (arith, f.balance))

-- Down, but still waiting for something to read.
HalfOpen : TcpConnection → Type 0
HalfOpen c = (is c connected ≡ false) × (is_reading c.channel ≡ true)

destroyed_none : (c : TcpConnection) → HalfOpen c → connect_destroyed c ≡ none
unfolding connect_destroyed remove HalfOpen
destroyed_none c h = rw (h.0, h.1)

shutdown-HalfOpen :
    (c : TcpConnection) (in_loop : Bool)
    → is c connected ≡ true
    → is_reading c.channel ≡ true
    → HalfOpen (shutdown c in_loop)
unfolding shutdown shutdown_in_loop HalfOpen
shutdown-HalfOpen c false up reading = rw up (refl, reading)
shutdown-HalfOpen c true up reading =
    let c' : TcpConnection = record c { state = disconnecting } in
    rw up (if_cases HalfOpen (is_writing c'.channel) (λ _. (refl, reading)) (λ _. (refl, reading)))

-- connectDestroyed, as the destructor of TcpServer calls it, stops at a failed assert on a connection
-- that has been shut down and still waits for its peer, since it disables the channel only in the
-- state connected; without the call of shutdown no assert fails and the connection is disconnected.
pub connect_destroyed_lem :
    (c : TcpConnection) (in_loop : Bool)
    → c.state ≡ connected
    → is_reading c.channel ≡ true
    → ((r : TcpConnection) × (connect_destroyed c ≡ some r) × (r.state ≡ disconnected))
      × (connect_destroyed (shutdown c in_loop) ≡ none)
unfolding connect_destroyed remove
connect_destroyed_lem c in_loop e reading =
    let up : is c connected ≡ true = ap (λ s. code s == 2) e in
    (
      rw up (_, refl, refl),
      destroyed_none (shutdown c in_loop) (shutdown-HalfOpen c in_loop up reading),
    )
