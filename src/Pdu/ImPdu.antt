-- ===== src/Pdu/ImPdu.antt =====
-- The class ImPdu of xx_chat_server/src/base/im_pdu_base.h and im_pdu_base.cpp: a message of 16
-- header bytes and a body.
-- A protobuf message is what the source asks of it, its `ByteSize()` and what
-- `SerializeToArray` leaves in an array of that size.
pub mod Frame
pub mod Build
pub mod Parse
pub mod Read
pub mod Prefix
pub mod RoundTrip
use xx_chat.Base.{
  ℕ, ◌+◌, ◌-◌, ◌%◌, ◌^◌, Bool, true, false, Option, none, some, List, [], length, take, drop, ltb,
  ◌==◌, if◌then◌else◌,
}
use xx_chat.Pdu.SimpleBuffer
use xx_chat.Pdu.SimpleBuffer.{SimpleBuffer, u32}
use xx_chat.Pdu.Words.{write_int32, write_uint16, read_uint32}
use xx_chat.Pdu.Exception.{Result, ok, throw, ◌>>=◌, pdu_exception}
use xx_chat.Pdu.ByteStream.{ByteStream, of_bytes, get_uint16, get_uint32}

-- `PduHeader_t`
pub record PduHeader : Type 0 where
  pub length : ℕ
  pub version : ℕ
  pub flag : ℕ
  pub service_id : ℕ
  pub command_id : ℕ
  pub seq_num : ℕ
  pub reversed : ℕ

pub record ImPdu : Type 0 where
  pub buf : SimpleBuffer
  pub header : PduHeader

abbrev pub header_len : ℕ
header_len = 16

abbrev pub sid_other : ℕ
sid_other = 7

-- The constructor; it leaves `length`, here 0, without a value.
unfoldable pub new_pdu : ImPdu
new_pdu = record {
  buf = SimpleBuffer.empty;
  header = record {
    length = 0;
    version = 1;
    flag = 0;
    service_id = sid_other;
    command_id = 0;
    seq_num = 0;
    reversed = 0;
  };
}

unfoldable pub get_buffer : ImPdu → List ℕ
get_buffer p = p.buf.buffer

unfoldable pub get_length : ImPdu → ℕ
get_length p = p.buf.write_offset

unfoldable pub get_body_data : ImPdu → List ℕ
get_body_data p = drop header_len p.buf.buffer

-- uint32_t subtraction wraps.
unfoldable pub get_body_length : ImPdu → ℕ
get_body_length p = u32 (p.buf.write_offset + 2 ^ 32 - header_len)

-- A write to the block of the buffer.
abbrev poke16 : ImPdu → ℕ → ℕ → ImPdu
poke16 p at_ n = record p { buf = record b { buffer = write_uint16 b.buffer at_ n } }
  where
    b : SimpleBuffer
    b = p.buf

unfoldable pub set_version : ImPdu → ℕ → ImPdu
set_version p n = poke16 p 4 n

unfoldable pub set_flag : ImPdu → ℕ → ImPdu
set_flag p n = poke16 p 6 n

unfoldable pub set_service_id : ImPdu → ℕ → ImPdu
set_service_id p n = poke16 p 8 n

unfoldable pub set_command_id : ImPdu → ℕ → ImPdu
set_command_id p n = poke16 p 10 n

unfoldable pub set_error : ImPdu → ℕ → ImPdu
set_error p n = poke16 p 12 n

unfoldable pub set_seq_num : ImPdu → ℕ → ImPdu
set_seq_num p n = poke16 p 12 n

-- The uint32_t argument is narrowed to uint16_t.
unfoldable pub set_reversed : ImPdu → ℕ → ImPdu
set_reversed p n = poke16 p 14 (n % 2 ^ 16)

unfoldable pub write_header : ImPdu → ImPdu
write_header p =
    let start = record p { buf = record b { buffer = write_int32 b.buffer 0 (get_length p) } } in
    poke16
      (poke16
        (poke16 (poke16 (poke16 (poke16 start 4 h.version) 6 h.flag) 8 h.service_id) 10
          h.command_id)
        12 h.seq_num)
      14 h.reversed
  where
    b : SimpleBuffer
    b = p.buf

    h : PduHeader
    h = p.header

unfoldable pub write : ImPdu → List ℕ → ℕ → ImPdu
write p bytes len = record p { buf = SimpleBuffer.write p.buf (some bytes) len }

-- The header that is read from a stream, field by field.
read_fields : ByteStream → Result PduHeader
read_fields is = do
  (length, s1) ← get_uint32 is
  (version, s2) ← get_uint16 s1
  (flag, s3) ← get_uint16 s2
  (service_id, s4) ← get_uint16 s3
  (command_id, s5) ← get_uint16 s4
  (seq_num, s6) ← get_uint16 s5
  (reversed, s7) ← get_uint16 s6
  ok (record {
    length = length;
    version = version;
    flag = flag;
    service_id = service_id;
    command_id = command_id;
    seq_num = seq_num;
    reversed = reversed;
  })

-- `true` is the return value 0, `false` is -1. `none` is a NULL buffer.
unfoldable pub read_pdu_header : ImPdu → Option (List ℕ) → ℕ → Result (Bool × ImPdu)
unfolding read_fields
read_pdu_header p none len = ok (false, p)
read_pdu_header p (some buf) len =
    if ltb len header_len
    then ok (false, p)
    else (do h ← read_fields (of_bytes buf len); ok (true, record p { header = h }))

-- `some n` is the return value true with `pdu_len` set to `n`.
unfoldable pub is_pdu_available : List ℕ → ℕ → Result (Option ℕ)
is_pdu_available buf len =
    let pdu_len = read_uint32 buf in
    if ltb len header_len
    then ok none
    else if ltb len pdu_len
    then ok none
    else if pdu_len == 0
    then throw (pdu_exception 1 "pdu_len is 0")
    else ok (some pdu_len)

-- `none` is the null pointer.
unfoldable pub read_pdu : List ℕ → ℕ → Result (Option ImPdu)
read_pdu buf len = do
  available ← is_pdu_available buf len
  elim available [
    | none ↦ ok none
    | some pdu_len ↦ do
      r ← read_pdu_header (write new_pdu buf pdu_len) (some buf) header_len
      ok (some r.1)
  ]

-- A message and what it serialises to.
pub record Message : Type 0 where
  pub byte_size : ℕ
  pub serialized : List ℕ

unfoldable pub set_pb_msg : ImPdu → Message → ImPdu
set_pb_msg p msg =
    let cleared = (SimpleBuffer.read p.buf p.buf.write_offset).2 in
    let headed = SimpleBuffer.write cleared none header_len in
    let filled = SimpleBuffer.write headed (some msg.serialized) msg.byte_size in
    write_header (record p { buf = filled })
