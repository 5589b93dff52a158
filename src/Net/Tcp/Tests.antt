-- ===== src/Net/Tcp/Tests.antt =====
-- Runs of TcpConnection on concrete values.
use xx_chat.Base.{◌≡◌, refl, inl, true, false, none, some, List, [], ◌∷◌, ◌++◌, replicate, arith}
use xx_chat.Net.Buffer.{Buffer, readable_bytes, writable_bytes, read_fd, append}
use xx_chat.Net.Channel.{
  Channel, new_channel, enable_writing, handle_event, handle_event_with_guard,
}
use xx_chat.Net.Tcp.{
  TcpConnection, connected, connecting, disconnected, new_connection, Written, send_in_loop,
  handle_write, shutdown, shutdown_in_loop, connect_destroyed, send, attempt, write_directly, keep,
  connect_established, on_event, handlers, handle_read, handle_close,
}
use xx_chat.Net.Tcp.Buffering.{IsBuffering}
use xx_chat.Net.Tcp.Faults.{accepted}
use xx_chat.Net.Tcp.Sending.{Sends, send_in_loop-Sends}
use xx_chat.Net.Tcp.Writing.{Writes, handle_write-Writes}
use xx_chat.Net.Tcp.Machine.{
  Call, sends, shuts_down, established, event, apply, run, Leads, announced, due,
}
use xx_chat.Net.Tcp.Machine.Life.{run_life, connect_destroyed_lem}

abbrev idle : Buffer
idle = record { buffer = replicate 16 0; reader_index = 8; writer_index = 8 }

abbrev two_left : Buffer
two_left = record { buffer = replicate 8 0 ++ (7 ∷ 9 ∷ []); reader_index = 8; writer_index = 10 }

abbrev channel_up : Channel
channel_up = record {
  fd = 5;
  events = record { reading = true; writing = false };
  tied = true;
  added_to_loop = true;
  loop_calls = [];
}

abbrev up : TcpConnection
up = record {
  state = connected;
  channel = channel_up;
  input = idle;
  output = idle;
  high_water_mark = 2;
  has_write_complete = true;
  has_high_water_mark = true;
  wire = [];
  done = [];
}

abbrev behind : TcpConnection
behind = record up { output = two_left; channel = enable_writing channel_up }

abbrev took_two : Written
took_two = record { result = 2; errno = 0 }

up-IsBuffering : IsBuffering up
unfolding readable_bytes
up-IsBuffering = record { valid = omega arith; big = omega arith; busy = refl }

behind-IsBuffering : IsBuffering behind
unfolding readable_bytes
behind-IsBuffering = record { valid = omega arith; big = omega arith; busy = refl }

send_in_loop-Sends_example :
    (r : TcpConnection) × (send_in_loop up (1 ∷ 2 ∷ 3 ∷ []) took_two ≡ some r)
    × Sends up (accepted up (1 ∷ 2 ∷ 3 ∷ []) took_two) r
send_in_loop-Sends_example =
    send_in_loop-Sends up (1 ∷ 2 ∷ 3 ∷ []) took_two up-IsBuffering (inl (omega arith)) (omega arith)
      (omega arith)

handle_write-Writes_example :
    (r : TcpConnection) × (handle_write behind took_two ≡ some r) × Writes behind r
unfolding readable_bytes
handle_write-Writes_example =
    handle_write-Writes behind took_two behind-IsBuffering (inl (omega arith))

-- Connected, a message sent, shut down.
abbrev life : List Call
life =
    established
    ∷ sends true (1 ∷ 2 ∷ []) took_two
    ∷ shuts_down true
    ∷ event true 1 (some []) took_two
    ∷ []

life_result : (r : TcpConnection) × (run (new_connection 5 idle idle) life ≡ some r)
unfolding run apply send send_in_loop attempt write_directly keep shutdown shutdown_in_loop
    connect_established on_event handle_event handle_event_with_guard handlers handle_read
    handle_close handle_write read_fd append readable_bytes writable_bytes new_connection
    new_channel
life_result = (_, refl)

run_life_example :
    Leads connecting life_result.0.state × (announced life_result.0.done ≡ due life_result.0.state)
run_life_example = run_life 5 idle idle life life_result.0 life_result.1

connect_destroyed_lem_example :
    ((r : TcpConnection) × (connect_destroyed up ≡ some r) × (r.state ≡ disconnected))
    × (connect_destroyed (shutdown up true) ≡ none)
connect_destroyed_lem_example = connect_destroyed_lem up true refl refl
