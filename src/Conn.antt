-- ===== src/Conn.antt =====
-- The class ImConn of xx_chat_server/src/base/im_conn.h and im_conn.cpp: what every connection of
-- the servers does with its two buffers.
-- The kernel is a list of what it answers to the calls to come: how many bytes `netlib_send` may
-- take, or a return value of at most 0; and the bytes that each `netlib_recv` delivers. A list that
-- has ended answers 0, the socket would block. Time is an argument of each call.
pub mod Output
mod Tests
pub mod Order
pub mod Input
pub mod Framing
pub mod Segments
pub mod Reads
pub mod Callback
use xx_chat.Base.{
  ℕ, zero, suc, min, ◌+◌, ◌-◌, ◌*◌, ◌^◌, Bool, true, false, Option, none, some, List, [], ◌∷◌, ◌++◌,
  length, take, drop, write_at, ltb, ◌==◌, if◌then◌else◌,
}
use xx_chat.Pdu.SimpleBuffer
use xx_chat.Pdu.SimpleBuffer.{SimpleBuffer, u32}
use xx_chat.Pdu.Exception.{PduException, Result, ok, throw}
use xx_chat.Pdu.ImPdu.{ImPdu, get_buffer, get_length, read_pdu}

pub record ImConn : Type 0 where
  pub handle : ℕ
  pub busy : Bool
  pub in_buf : SimpleBuffer
  pub out_buf : SimpleBuffer
  pub recv_bytes : ℕ
  pub last_send_tick : ℕ
  pub last_recv_tick : ℕ

abbrev pub max_socket_buf_size : ℕ
max_socket_buf_size = 128 * 1024

abbrev pub read_buf_size : ℕ
read_buf_size = 2048

-- The constructor at time `now`; `handle` stands for the invalid handle until a connection is made.
unfoldable pub new_conn : ℕ → ℕ → ImConn
new_conn handle now = record {
  handle = handle;
  busy = false;
  in_buf = SimpleBuffer.empty;
  out_buf = SimpleBuffer.empty;
  recv_bytes = 0;
  last_send_tick = now;
  last_recv_tick = now;
}

-- What the kernel answers to one `netlib_send`.
pub data Answer : Type 0 where
  refuse : Answer
  room : ℕ → Answer

-- The return value for `size` bytes, with 0 for all that is at most 0.
abbrev pub accepted : Answer → ℕ → ℕ
accepted refuse size = 0
accepted (room n) size = min n size

-- The number of bytes that one call offers.
abbrev pub send_size : ℕ → ℕ
send_size remain = if ltb max_socket_buf_size remain then max_socket_buf_size else remain

-- The bytes that are left, those that the kernel took, and its answers to come.
pub record Sent : Type 0 where
  pub left : List ℕ
  pub put : List ℕ
  pub answers : List Answer

-- The loop of `Send` on the bytes from `offset` on.
unfoldable pub send_loop : List Answer → List ℕ → Sent
send_loop [] rest = record { left = rest; put = []; answers = [] }
send_loop (a ∷ later) rest =
    let ret = accepted a (send_size (length rest)) in
    let more = send_loop later (drop ret rest) in
    if length rest == 0
    then record { left = rest; put = []; answers = a ∷ later }
    else if ret == 0
    then record { left = rest; put = []; answers = later }
    else record more { put = take ret rest ++ more.put }

-- `Send` of the bytes `buf`. It returns their number.
unfoldable pub send : ImConn → ℕ → List ℕ → List Answer → ImConn × List ℕ × List Answer
send c now buf answers =
    let c' = record c { last_send_tick = now } in
    let s = send_loop answers buf in
    if c.busy
    then (record c' { out_buf = SimpleBuffer.write c.out_buf (some buf) (length buf) }, [], answers)
    else if ltb 0 (length s.left)
    then (
      record c' {
        out_buf = SimpleBuffer.write c.out_buf (some s.left) (length s.left);
        busy = true;
      },
      s.put,
      s.answers,
    )
    else (c', s.put, s.answers)

unfoldable pub send_pdu : ImConn → ℕ → ImPdu → List Answer → ImConn × List ℕ × List Answer
send_pdu c now p answers = send c now (take (get_length p) (get_buffer p)) answers

-- The buffer that is left, the bytes that the kernel took, and its answers to come.
pub record Flushed : Type 0 where
  pub buf : SimpleBuffer
  pub put : List ℕ
  pub answers : List Answer

-- The loop of `OnWrite`.
unfoldable pub flush_loop : List Answer → SimpleBuffer → Flushed
flush_loop [] b = record { buf = b; put = []; answers = [] }
flush_loop (a ∷ later) b =
    let ret = accepted a (send_size b.write_offset) in
    let more = flush_loop later (SimpleBuffer.read b ret).2 in
    if b.write_offset == 0
    then record { buf = b; put = []; answers = a ∷ later }
    else if ret == 0
    then record { buf = b; put = []; answers = later }
    else record more { put = take ret b.buffer ++ more.put }

unfoldable pub on_write : ImConn → List Answer → ImConn × List ℕ × List Answer
on_write c answers =
    let f = flush_loop answers c.out_buf in
    if c.busy
    then (
      record c { out_buf = f.buf; busy = if f.buf.write_offset == 0 then false else true },
      f.put,
      f.answers,
    )
    else (c, [], answers)

-- Room for a read, made before each `netlib_recv`. The subtraction is one of uint32_t.
unfoldable pub make_room : SimpleBuffer → SimpleBuffer
make_room b =
    if ltb (u32 (b.alloc_size + 2 ^ 32 - b.write_offset)) read_buf_size
    then SimpleBuffer.extend b read_buf_size
    else b

-- One `netlib_recv` delivers `chunk`: the kernel writes it behind the bytes in use.
unfoldable pub take_chunk : ImConn → ℕ → List ℕ → ImConn
take_chunk c now chunk =
    let b = make_room c.in_buf in
    record c {
      in_buf =
          SimpleBuffer.inc_write_offset
            (record b { buffer = write_at b.buffer b.write_offset chunk }) (length chunk);
      recv_bytes = u32 (c.recv_bytes + length chunk);
      last_recv_tick = now;
    }

-- The first loop of `OnRead`. It ends at the first return value that is at most 0.
unfoldable pub recv_loop : ImConn → ℕ → List (List ℕ) → ImConn
recv_loop c now [] = record c { in_buf = make_room c.in_buf }
recv_loop c now (chunk ∷ chunks) =
    let rest = recv_loop (take_chunk c now chunk) now chunks in
    if length chunk == 0 then record c { in_buf = make_room c.in_buf } else rest

-- `HandlePdu` of the connection's class, on a state of type S; it may throw.
abbrev pub Handler : Type 0 → Type 0
Handler S = ImPdu → S → S × Option PduException

-- The second loop of `OnRead`, with fuel: each round consumes a message.
unfoldable pub parse_loop :
    {S : Type 0} → Handler S → ℕ → SimpleBuffer → S → S × SimpleBuffer × Option PduException
parse_loop handle zero b s = (s, b, none)
parse_loop handle (suc fuel) b s = elim (read_pdu b.buffer b.write_offset) [
  | throw e ↦ (s, b, some e)
  | ok none ↦ (s, b, none)
  | ok (some p) ↦
      let (s', thrown) = handle p s in
      elim thrown [
        | some e ↦ (s', b, some e)
        | none ↦ parse_loop handle fuel (SimpleBuffer.read b (get_length p)).2 s'
      ]
]

-- `OnRead`: the connection, the handler's state, and the exception after which `OnClose` is called.
unfoldable pub on_read :
    {S : Type 0} → Handler S → ImConn → ℕ → List (List ℕ) → S → ImConn × S × Option PduException
on_read handle c now chunks s =
    let c' = recv_loop c now chunks in
    let (s', b, thrown) = parse_loop handle (suc c'.in_buf.write_offset) c'.in_buf s in
    (record c' { in_buf = b }, s', thrown)
