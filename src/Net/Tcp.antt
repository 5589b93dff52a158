-- ===== src/Net/Tcp.antt =====
-- The class TcpConnection of xx_chat_server/src/net/tcp_connection.h and tcp_connection.cpp.
-- A function returns the connection it leaves, `none` at a failed assert. `wire` is what the kernel
-- has taken, and `done` what was called or queued, the newest first: the callbacks of the user, and
-- the functors that `queueInLoop` and, from another thread, `runInLoop` leave for the event loop.
-- What a callback does to the connection is a later call: each handler calls it last, save
-- connectDestroyed, which then removes the channel. The log is left out. `startRead`, `stopRead`
-- and `forceCloseWithDelay` have no definition in the source.
pub mod Buffering
pub mod Attempts
pub mod Faults
pub mod Sending
pub mod Writing
pub mod Machine
mod Tests
use xx_chat.Base.{
  ℕ, zero, suc, ◌+◌, ◌-◌, ◌*◌, ◌%◌, ◌^◌, Bool, true, false, not, ◌&&◌, ◌||◌, Option, none, some,
  List, [], ◌∷◌, ◌++◌, length, take, drop, ltb, leb, ◌==◌, if◌then◌else◌,
}
use xx_chat.Base.Options.{◌>>=◌, ◌>>◌, assert}
use xx_chat.Net.Buffer.{
  Buffer, sub_size, readable_bytes, peek, retrieve, append, read_fd, new_buffer,
}
use xx_chat.Net.Channel.{
  Channel, Callbacks, new_channel, is_writing, enable_reading, enable_writing, disable_writing,
  disable_all, tie, remove, handle_event,
}

pub data State : Type 0 where
  disconnected connecting connected disconnecting : State

pub data Effect : Type 0 where
  queue_send : List ℕ → Effect
  queue_shutdown : Effect
  queue_force_close : Effect
  queue_write_complete : Effect
  queue_high_water_mark : ℕ → Effect
  shutdown_write : Effect
  connection_callback : Effect
  message_callback : Effect
  close_callback : Effect

pub record TcpConnection : Type 0 where
  pub state : State
  pub channel : Channel
  pub input : Buffer
  pub output : Buffer
  pub high_water_mark : ℕ
  pub has_write_complete : Bool
  pub has_high_water_mark : Bool
  pub wire : List ℕ
  pub done : List Effect

-- The numbers of the enum.
abbrev pub code : State → ℕ
code disconnected = 0
code connecting = 1
code connected = 2
code disconnecting = 3

abbrev pub is : TcpConnection → State → Bool
is c s = code c.state == code s

unfoldable pub new_connection : ℕ → Buffer → Buffer → TcpConnection
unfolding new_channel
new_connection fd input output = record {
  state = connecting;
  channel = new_channel fd;
  input = input;
  output = output;
  high_water_mark = 64 * 1024 * 1024;
  has_write_complete = false;
  has_high_water_mark = false;
  wire = [];
  done = [];
}

abbrev pub note : TcpConnection → Effect → TcpConnection
note c e = record c { done = e ∷ c.done }

-- What `write` returns: a number of 64 bits, and `errno`.
pub record Written : Type 0 where
  pub result : ℕ
  pub errno : ℕ

-- Whether the result, a number of `w` bits in two's complement, is not negative.
abbrev pub is_nonneg : ℕ → ℕ → Bool
is_nonneg w n = ltb n (2 ^ (w - 1))

abbrev pub would_block : ℕ
would_block = 11

abbrev pub broken_pipe : ℕ
broken_pipe = 32

abbrev pub conn_reset : ℕ
conn_reset = 104

-- What the kernel takes of `data_` on a write with this result.
abbrev pub taken : Written → List ℕ → List ℕ
taken w data_ = if is_nonneg 64 w.result then take w.result data_ else []

-- The local variables of sendInLoop after the attempt to write at once.
pub record Attempt : Type 0 where
  pub conn : TcpConnection
  pub nwrote : ℕ
  pub remaining : ℕ
  pub fault_error : Bool

unfoldable pub write_directly : TcpConnection → List ℕ → Written → Attempt
write_directly c data_ w =
    let nwrote = w.result % 2 ^ 32 in
    let c' : TcpConnection = record c { wire = c.wire ++ taken w data_ } in
    let remaining = sub_size (length data_) nwrote in
    if is_nonneg 32 nwrote
    then record {
      conn = if (remaining == 0) && c.has_write_complete then note c' queue_write_complete else c';
      nwrote = nwrote;
      remaining = remaining;
      fault_error = false;
    }
    else record {
      conn = c';
      nwrote = 0;
      remaining = length data_;
      fault_error =
          not (w.errno == would_block) && ((w.errno == broken_pipe) || (w.errno == conn_reset));
    }

unfoldable pub attempt : TcpConnection → List ℕ → Written → Attempt
unfolding write_directly
attempt c data_ w =
    if not (is_writing c.channel) && (readable_bytes c.output == 0)
    then write_directly c data_ w
    else record { conn = c; nwrote = 0; remaining = length data_; fault_error = false }

-- `data_` behind its first `from` bytes, `remaining` of them, waits in the output buffer.
unfoldable pub keep : TcpConnection → List ℕ → ℕ → ℕ → Option TcpConnection
keep c data_ from remaining = do
  let old = readable_bytes c.output
  output ← append c.output (drop from data_) remaining
  let c' : TcpConnection = record c {
    output = output;
    channel = if is_writing c.channel then c.channel else enable_writing c.channel;
  }
  let above = leb c.high_water_mark (old + remaining) && ltb old c.high_water_mark
  some (
      if above && c.has_high_water_mark
      then note c' (queue_high_water_mark (old + remaining))
      else c')

unfoldable pub send_in_loop : TcpConnection → List ℕ → Written → Option TcpConnection
unfolding attempt keep
send_in_loop c data_ w = if is c disconnected then some c else do
  let a = attempt c data_ w
  assert (leb a.remaining (length data_))
  if not a.fault_error && ltb 0 a.remaining
      then keep a.conn data_ a.nwrote a.remaining
      else some a.conn

-- `in_loop`: whether the thread of the event loop calls.
unfoldable pub send : TcpConnection → Bool → List ℕ → Written → Option TcpConnection
unfolding send_in_loop
send c in_loop data_ w =
    if is c connected
    then (if in_loop then send_in_loop c data_ w else some (note c (queue_send data_)))
    else some c

unfoldable pub shutdown_in_loop : TcpConnection → TcpConnection
shutdown_in_loop c = if is_writing c.channel then c else note c shutdown_write

unfoldable pub shutdown : TcpConnection → Bool → TcpConnection
unfolding shutdown_in_loop
shutdown c in_loop =
    let c' : TcpConnection = record c { state = disconnecting } in
    if is c connected then (if in_loop then shutdown_in_loop c' else note c' queue_shutdown) else c

unfoldable pub force_close : TcpConnection → TcpConnection
force_close c =
    if is c connected || is c disconnecting
    then note (record c { state = disconnecting }) queue_force_close
    else c

unfoldable pub handle_close : TcpConnection → Option TcpConnection
handle_close c = do
  assert (is c connected || is c disconnecting)
  some (
      note
        (note (record c { state = disconnected; channel = disable_all c.channel })
          connection_callback)
        close_callback)

unfoldable pub force_close_in_loop : TcpConnection → Option TcpConnection
unfolding handle_close
force_close_in_loop c = if is c connected || is c disconnecting then handle_close c else some c

unfoldable pub connect_established : TcpConnection → Option TcpConnection
connect_established c = do
  assert (is c connecting)
  some (
      note (record c { state = connected; channel = enable_reading (tie c.channel) })
        connection_callback)

unfoldable pub connect_destroyed : TcpConnection → Option TcpConnection
unfolding remove
connect_destroyed c = do
  let c' : TcpConnection =
      if is c connected
      then note (record c { state = disconnected; channel = disable_all c.channel })
          connection_callback
      else c
  channel ← remove c'.channel
  some (record c' { channel = channel })

-- `got`: what readv delivers, nothing at the end of the stream, or `none` for an error, which
-- handleError only logs.
unfoldable pub handle_read : TcpConnection → Option (List ℕ) → Option TcpConnection
unfolding handle_close
handle_read c none = do input ← read_fd c.input none; some (record c { input = input })
handle_read c (some got) = do
  input ← read_fd c.input (some got)
  let c' : TcpConnection = record c { input = input }
  if ltb 0 (length got) then some (note c' message_callback) else handle_close c'

-- The bytes that handleWrite hands to `write`.
abbrev pub waiting : TcpConnection → List ℕ
waiting c = take (readable_bytes c.output) (peek c.output)

-- After the last byte.
unfoldable pub drained : TcpConnection → TcpConnection
unfolding shutdown_in_loop
drained c =
    let c1 : TcpConnection = record c { channel = disable_writing c.channel } in
    let c2 = if c.has_write_complete then note c1 queue_write_complete else c1 in
    if is c2 disconnecting then shutdown_in_loop c2 else c2

-- A write of the waiting bytes took `n` of them.
unfoldable pub wrote : TcpConnection → ℕ → Option TcpConnection
unfolding drained
wrote c n = do
  output ← retrieve c.output n
  let c' : TcpConnection = record c { output = output; wire = c.wire ++ take n (waiting c) }
  some (if readable_bytes output == 0 then drained c' else c')

unfoldable pub handle_write : TcpConnection → Written → Option TcpConnection
unfolding wrote
handle_write c w =
    if is_writing c.channel && ltb 0 w.result && is_nonneg 64 w.result
    then wrote c w.result
    else some c

-- The handlers that the constructor sets as the callbacks of the channel.
unfoldable pub handlers : Option (List ℕ) → Written → Callbacks TcpConnection
unfolding handle_read handle_write handle_close
handlers got w = record {
  read_callback = some (λ s. handle_read s got);
  write_callback = some (λ s. handle_write s w);
  close_callback = some handle_close;
  error_callback = some (λ s. some s);
}

unfoldable pub on_event :
    TcpConnection → Bool → ℕ → Option (List ℕ) → Written → Option TcpConnection
unfolding handle_event handlers
on_event c alive revents got w = handle_event c.channel (handlers got w) alive revents c
