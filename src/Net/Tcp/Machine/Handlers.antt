-- ===== src/Net/Tcp/Machine/Handlers.antt =====
-- The functions of TcpConnection, one by one, in its life.
use xx_chat.Base.{
  ℕ, ◌+◌, ◌%◌, ◌^◌, refl, sym, Bool, not, ◌&&◌, ◌||◌, Option, none, some, List, ◌++◌, length, drop,
  ltb, leb, ◌==◌, if◌then◌else◌, arith, take, if_cases, inl, inr, Bool-cases,
}
use xx_chat.Base.Options.{Always, Always-here, Always-bind, Always-map, Always-assert}
use xx_chat.Net.Buffer.{sub_size, readable_bytes, append, retrieve, read_fd}
use xx_chat.Net.Channel.{is_writing, enable_writing, disable_writing, disable_all, remove}
use xx_chat.Net.Tcp.{
  TcpConnection, disconnected, connecting, connected, disconnecting, is, note, connection_callback,
  close_callback, message_callback, shutdown_write, queue_shutdown, queue_force_close,
  queue_write_complete, queue_high_water_mark, queue_send, Written, is_nonneg, taken, Attempt,
  write_directly, attempt, keep, send_in_loop, send, shutdown, shutdown_in_loop, force_close,
  force_close_in_loop, handle_close, connect_established, connect_destroyed, handle_read,
  handle_write, wrote, drained, waiting,
}
use xx_chat.Net.Tcp.Machine.{
  establish, shut, close, close_shut, announced, due, Follows, is_announced, still, Follows-trans,
  Follows-refl, note_if-Follows, is_lem, up_cases, moves,
}

closed : TcpConnection → TcpConnection
closed c =
    note
      (note (record c { state = disconnected; channel = disable_all c.channel })
        connection_callback)
      close_callback

pub handle_close-Follows : (c : TcpConnection) → Always (Follows c) (handle_close c)
unfolding handle_close announced is_announced due closed
handle_close-Follows c = Always-assert (Follows c) (is c connected || is c disconnecting) (λ up.
    Always-here (Follows c) (closed c) (elim (up_cases c up) [
      | inl p ↦ moves c (closed c) close p refl (omega arith)
      | inr p ↦ moves c (closed c) close_shut p refl (omega arith)
    ]))

pub shutdown_in_loop-Follows : (c : TcpConnection) → Follows c (shutdown_in_loop c)
unfolding shutdown_in_loop announced is_announced
shutdown_in_loop-Follows c =
    if_cases (Follows c) (is_writing c.channel) (λ _. Follows-refl c)
      (λ _. still c (note c shutdown_write) refl (omega arith))

pub force_close-Follows : (c : TcpConnection) → Follows c (force_close c)
unfolding force_close announced is_announced due
force_close-Follows c =
    let r : TcpConnection = note (record c { state = disconnecting }) queue_force_close in
    if_cases (Follows c) (is c connected || is c disconnecting)
      (λ up. elim (up_cases c up) [
        | inl p ↦ moves c r shut p refl (omega arith)
        | inr p ↦ still c r (sym p) (omega arith)
      ])
      (λ _. Follows-refl c)

pub shutdown-Follows : (c : TcpConnection) (in_loop : Bool) → Follows c (shutdown c in_loop)
unfolding shutdown announced is_announced due
shutdown-Follows c in_loop = elim (Bool-cases (is c connected)) [
  | inl up ↦
      let c' : TcpConnection = record c { state = disconnecting } in
      let f = moves c c' shut (is_lem c connected up) refl (omega arith) in
      elim (Bool-cases in_loop) [
        | inl now ↦ rw (up, now) (Follows-trans f (shutdown_in_loop-Follows c'))
        | inr later ↦
            rw (up, later) (Follows-trans f (still c' (note c' queue_shutdown) refl (omega arith)))
      ]
  | inr down ↦ rw down (Follows-refl c)
]

pub force_close_in_loop-Follows : (c : TcpConnection) → Always (Follows c) (force_close_in_loop c)
unfolding force_close_in_loop
force_close_in_loop-Follows c =
    if_cases (Always (Follows c)) (is c connected || is c disconnecting)
      (λ _. handle_close-Follows c) (λ _. Always-here (Follows c) c (Follows-refl c))

pub connect_established-Follows : (c : TcpConnection) → Always (Follows c) (connect_established c)
unfolding connect_established announced is_announced due
connect_established-Follows c = Always-assert (Follows c) (is c connecting) (λ e.
    Always-here (Follows c) _ (moves c _ establish (is_lem c connecting e) refl (omega arith)))

pub connect_destroyed-Follows : (c : TcpConnection) → Always (Follows c) (connect_destroyed c)
unfolding connect_destroyed announced is_announced due
connect_destroyed-Follows c =
    let d : TcpConnection =
      note (record c { state = disconnected; channel = disable_all c.channel })
        connection_callback in
    let e = if is c connected then d else c in
    let f : Follows c e =
      if_cases (Follows c) (is c connected)
        (λ up. moves c d close (is_lem c connected up) refl (omega arith)) (λ _. Follows-refl c) in
    Always-bind (Follows c) (remove e.channel) (λ ch _.
      Always-here (Follows c) (record e { channel = ch })
        (Follows-trans f (still e (record e { channel = ch }) refl refl)))

pub attempt-Follows :
    (c : TcpConnection) (xs : List ℕ) (w : Written) → Follows c (attempt c xs w).conn
unfolding attempt write_directly is_announced
attempt-Follows c xs w =
    let n = w.result % 2 ^ 32 in
    let d : TcpConnection = record c { wire = c.wire ++ taken w xs } in
    let all = (sub_size (length xs) n == 0) && c.has_write_complete in
    let P = λ (a : Attempt). Follows c a.conn in
    let f = still c d refl refl in
    if_cases P (not (is_writing c.channel) && (readable_bytes c.output == 0))
      (λ _.
        if_cases P (is_nonneg 32 n)
          (λ _. Follows-trans f (note_if-Follows all d queue_write_complete refl)) (λ _. f))
      (λ _. Follows-refl c)

pub keep-Follows :
    (c : TcpConnection) (xs : List ℕ) (from remaining : ℕ)
    → Always (Follows c) (keep c xs from remaining)
unfolding keep is_announced
keep-Follows c xs from remaining =
    Always-bind (Follows c) (append c.output (drop from xs) remaining) (λ q _.
      let d : TcpConnection = record c {
        output = q;
        channel = if is_writing c.channel then c.channel else enable_writing c.channel;
      } in
      Always-here (Follows c) _ (
        Follows-trans (still c d refl refl)
          (note_if-Follows _ d (queue_high_water_mark (readable_bytes c.output + remaining)) refl)))

pub send_in_loop-Follows :
    (c : TcpConnection) (xs : List ℕ) (w : Written) → Always (Follows c) (send_in_loop c xs w)
unfolding send_in_loop
send_in_loop-Follows c xs w =
    let a = attempt c xs w in
    let f = attempt-Follows c xs w in
    let P = Follows c in
    if_cases (Always P) (is c disconnected) (λ _. Always-here P c (Follows-refl c))
      (λ _. Always-assert P (leb a.remaining (length xs)) (λ _.
        if_cases (Always P) (not a.fault_error && ltb 0 a.remaining)
          (λ _. Always-map (λ r g. Follows-trans f g) (keep-Follows a.conn xs a.nwrote a.remaining))
          (λ _. Always-here P a.conn f)))

pub send-Follows :
    (c : TcpConnection) (in_loop : Bool) (xs : List ℕ) (w : Written)
    → Always (Follows c) (send c in_loop xs w)
unfolding send announced is_announced
send-Follows c in_loop xs w =
    let P = Follows c in
    if_cases (Always P) (is c connected)
      (λ _.
        if_cases (Always P) in_loop (λ _. send_in_loop-Follows c xs w)
          (λ _. Always-here P _ (still c (note c (queue_send xs)) refl (omega arith))))
      (λ _. Always-here P c (Follows-refl c))

pub handle_read-Follows :
    (c : TcpConnection) (got : Option (List ℕ)) → Always (Follows c) (handle_read c got)
unfolding handle_read announced is_announced
handle_read-Follows c none =
    Always-bind (Follows c) (read_fd c.input none)
      (λ q _. Always-here (Follows c) _ (still c (record c { input = q }) refl refl))
handle_read-Follows c (some got) = Always-bind (Follows c) (read_fd c.input (some got)) (λ q _.
    let d : TcpConnection = record c { input = q } in
    let f = still c d refl refl in
    if_cases (Always (Follows c)) (ltb 0 (length got))
      (λ _. Always-here (Follows c) _ (still c (note d message_callback) refl (omega arith)))
      (λ _. Always-map (λ r g. Follows-trans f g) (handle_close-Follows d)))

pub drained-Follows : (c : TcpConnection) → Follows c (drained c)
unfolding drained is_announced
drained-Follows c =
    let c1 : TcpConnection = record c { channel = disable_writing c.channel } in
    let c2 = if c.has_write_complete then note c1 queue_write_complete else c1 in
    let f =
      Follows-trans (still c c1 refl refl)
        (note_if-Follows c.has_write_complete c1 queue_write_complete refl) in
    if_cases (Follows c) (is c2 disconnecting) (λ _. Follows-trans f (shutdown_in_loop-Follows c2))
      (λ _. f)

pub handle_write-Follows : (c : TcpConnection) (w : Written) → Always (Follows c) (handle_write c w)
unfolding handle_write wrote
handle_write-Follows c w =
    if_cases (Always (Follows c)) (is_writing c.channel && ltb 0 w.result && is_nonneg 64 w.result)
      (λ _. Always-bind (Follows c) (retrieve c.output w.result) (λ q _.
        let d : TcpConnection = record c {
          output = q;
          wire = c.wire ++ take w.result (waiting c);
        } in
        let f = still c d refl refl in
        Always-here (Follows c) _ (
          if_cases (Follows c) (readable_bytes q == 0) (λ _. Follows-trans f (drained-Follows d))
            (λ _. f))))
      (λ _. Always-here (Follows c) c (Follows-refl c))
