-- ===== src/Pdu/ByteStream.antt =====
-- The class ByteStream of xx_chat_server/src/base/util_pdu.h and util_pdu.cpp: fields that are
-- written one behind the other, and read in the same order.
pub mod Reading
pub mod Fields
pub mod RoundTrip
use xx_chat.Base.{
  ℕ, ◌+◌, Bool, false, Option, none, some, List, [], ◌∷◌, length, take, drop, get_or, write_at, ltb,
  ◌==◌, if◌then◌else◌,
}
use xx_chat.Pdu.SimpleBuffer
use xx_chat.Pdu.SimpleBuffer.{SimpleBuffer, u32}
use xx_chat.Pdu.Words.{bytes16, bytes32, read_uint16, read_uint32}
use xx_chat.Pdu.Exception.{Result, ok, throw, ◌>>=◌, parse_failed}

-- `simpleBuf_` or `buf_`, of which a stream has one.
pub data Backing : Type 0 where
  simple : SimpleBuffer → Backing
  raw : List ℕ → Backing

pub record ByteStream : Type 0 where
  pub backing : Backing
  pub len : ℕ
  pub pos : ℕ

unfoldable pub of_bytes : List ℕ → ℕ → ByteStream
of_bytes buf len = record { backing = raw buf; len = len; pos = 0 }

unfoldable pub of_simple_buffer : SimpleBuffer → ℕ → ByteStream
of_simple_buffer b pos = record { backing = simple b; len = 0; pos = pos }

unfoldable pub get_buf : ByteStream → List ℕ
get_buf s = elim s.backing [ simple b ↦ b.buffer | raw buf ↦ buf ]

unfoldable pub skip : ByteStream → ℕ → Result ByteStream
skip s len =
    let next = u32 (s.pos + len) in
    if ltb s.len next then throw parse_failed else ok (record s { pos = next })

-- The bytes that are read, and the stream behind them.
read_backing : Backing → ℕ → ℕ → List ℕ × Backing
read_backing (simple b) pos len = let r = SimpleBuffer.read b len in (r.0, simple r.2)
read_backing (raw buf) pos len = (take len (drop pos buf), raw buf)

unfoldable pub read_byte : ByteStream → ℕ → Result (List ℕ × ByteStream)
unfolding read_backing
read_byte s len =
    if ltb s.len (u32 (s.pos + len))
    then throw parse_failed
    else (let (bytes, rest) = read_backing s.backing s.pos len in
        ok (bytes, record s { backing = rest; pos = u32 (s.pos + len) }))

write_backing : Backing → ℕ → List ℕ → ℕ → Backing
write_backing (simple b) pos bytes len = simple (SimpleBuffer.write b (some bytes) len)
write_backing (raw buf) pos bytes len = raw (write_at buf pos (take len bytes))

-- A raw block that has no room for the bytes is left as it is.
refuses : ByteStream → ℕ → Bool
refuses s len = elim s.backing [ simple b ↦ false | raw buf ↦ ltb s.len (u32 (s.pos + len)) ]

unfoldable pub write_byte : ByteStream → List ℕ → ℕ → ByteStream
unfolding write_backing refuses
write_byte s bytes len =
    if refuses s len
    then s
    else record s { backing = write_backing s.backing s.pos bytes len; pos = u32 (s.pos + len) }

-- `operator<<` for one, two and four bytes, signed and unsigned.
unfoldable pub put_uint8 : ByteStream → ℕ → ByteStream
put_uint8 s n = write_byte s (n ∷ []) 1

unfoldable pub put_uint16 : ByteStream → ℕ → ByteStream
put_uint16 s n = write_byte s (bytes16 n) 2

unfoldable pub put_uint32 : ByteStream → ℕ → ByteStream
put_uint32 s n = write_byte s (bytes32 n) 4

-- `operator>>`
unfoldable pub get_uint8 : ByteStream → Result (ℕ × ByteStream)
get_uint8 s = do r ← read_byte s 1; ok (get_or r.0 0 0, r.1)

unfoldable pub get_uint16 : ByteStream → Result (ℕ × ByteStream)
get_uint16 s = do r ← read_byte s 2; ok (read_uint16 r.0, r.1)

unfoldable pub get_uint32 : ByteStream → Result (ℕ × ByteStream)
get_uint32 s = do r ← read_byte s 4; ok (read_uint32 r.0, r.1)

-- The bytes of a C string in front of its terminating 0.
unfoldable pub c_string : List ℕ → List ℕ
c_string [] = []
c_string (c ∷ cs) = if c == 0 then [] else c ∷ c_string cs

-- `none` is the NULL string.
unfoldable pub write_c_string : ByteStream → Option (List ℕ) → ByteStream
write_c_string s str =
    let bytes : List ℕ = elim str [ none ↦ [] | some cs ↦ c_string cs ] in
    write_byte (put_uint32 s (u32 (length bytes))) bytes (u32 (length bytes))

unfoldable pub write_string : ByteStream → List ℕ → ℕ → ByteStream
write_string s str len = write_byte (put_uint32 s len) str len

unfoldable pub write_data : ByteStream → List ℕ → ℕ → ByteStream
write_data s bytes len = write_byte (put_uint32 s len) bytes len

-- The length that is read, the memory from the returned pointer on, and the stream.
unfoldable pub read_string : ByteStream → Result (ℕ × List ℕ × ByteStream)
read_string s = do (n, s') ← get_uint32 s; s'' ← skip s' n; ok (n, drop s'.pos (get_buf s'), s'')

unfoldable pub read_data : ByteStream → Result (ℕ × List ℕ × ByteStream)
read_data s = do (n, s') ← get_uint32 s; s'' ← skip s' n; ok (n, drop s'.pos (get_buf s'), s'')
