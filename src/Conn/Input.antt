-- ===== src/Conn/Input.antt =====
-- The input side of ImConn: OnRead cuts the byte stream into messages.
use xx_chat.Base.{
  ℕ, ◌+◌, ◌-◌, ◌/◌, ◌^◌, ◌≤◌, ◌<◌, ◌≡◌, refl, sym, ap, ◌∙◌, inl, inr, List, [], ◌∷◌, ◌++◌, All,
  length, ltb, ◌==◌, if◌then◌else◌, arith, append-nil, append_assoc, length-append, Bool-cases,
  if_cases, length-write_at, take-write_at,
}
use xx_chat.Pdu.SimpleBuffer
use xx_chat.Pdu.SimpleBuffer.{SimpleBuffer, u32}
use xx_chat.Pdu.SimpleBuffer.Content.{
  content, IsValid, Fits, extend-IsValid, extend_lem, write_offset-extend,
}
use xx_chat.Conn.{ImConn, read_buf_size, make_room, take_chunk, recv_loop}

-- `make_room` keeps the bytes in use and leaves room for a read behind them.
record HasRoom (b r : SimpleBuffer) : Type 0 where
  valid : IsValid r
  same : content r ≡ content b
  offset : r.write_offset ≡ b.write_offset
  room : b.write_offset + 2048 ≤ r.alloc_size

make_room-HasRoom : (b : SimpleBuffer) → IsValid b → Fits b 2048 → HasRoom b (make_room b)
unfolding make_room
make_room-HasRoom b v f =
    if_cases (HasRoom b) (ltb (u32 (b.alloc_size + 2 ^ 32 - b.write_offset)) read_buf_size)
      (λ e. record {
        valid = extend-IsValid b 2048 v f;
        same = (extend_lem b 2048 v f).0;
        offset = write_offset-extend b 2048;
        room = (extend_lem b 2048 v f).1;
      })
      (λ e. record { valid = v; same = refl; offset = refl; room = ground arith })

-- What reading does to the input buffer: `new` is behind what was there.
pub record Receives (c : ImConn) (new : List ℕ) (d : ImConn) : Type 0 where
  pub valid : IsValid d.in_buf
  pub bytes : content d.in_buf ≡ content c.in_buf ++ new
  pub offset : d.in_buf.write_offset ≡ c.in_buf.write_offset + length new

take_chunk-Receives :
    (c : ImConn) (now : ℕ) (chunk : List ℕ)
    → IsValid c.in_buf
    → Fits c.in_buf 2048
    → length chunk ≤ 2048
    → Receives c chunk (take_chunk c now chunk)
unfolding take_chunk SimpleBuffer.inc_write_offset
take_chunk-Receives c now chunk v f h =
    let b = make_room c.in_buf in
    let q : HasRoom c.in_buf b = make_room-HasRoom c.in_buf v f in
    let n : u32 (b.write_offset + length chunk) ≡ c.in_buf.write_offset + length chunk =
      omega (arith, q.offset, q.valid.small, q.room) in
    record {
      valid = record {
        block = length-write_at b.buffer b.write_offset chunk ∙ q.valid.block;
        within = omega (arith, n, q.room);
        small = q.valid.small;
      };
      bytes =
          take-write_at b.buffer b.write_offset chunk _ (omega (arith, n, q.offset))
            (omega (arith, n, q.room, q.valid.block))
          ∙ ap (λ ys. ys ++ chunk) q.same;
      offset = n;
    }

-- The bytes that one call of `OnRead` receives.
abbrev pub received : List (List ℕ) → List ℕ
received [] = []
received (chunk ∷ chunks) = if length chunk == 0 then [] else chunk ++ received chunks

-- A buffer that holds this many bytes can be grown.
abbrev pub Grows : ℕ → Type 0
Grows n = n + n / 4 < 2 ^ 32

pub recv_loop-Receives :
    (c : ImConn) (now : ℕ) (chunks : List (List ℕ))
    → IsValid c.in_buf
    → Grows (c.in_buf.write_offset + length (received chunks) + 2048)
    → All (λ chunk. length chunk ≤ 2048) chunks
    → Receives c (received chunks) (recv_loop c now chunks)
unfolding recv_loop
recv_loop-Receives c now [] v g h =
    let q : HasRoom c.in_buf (make_room c.in_buf) = make_room-HasRoom c.in_buf v (omega arith) in
    record {
      valid = q.valid;
      bytes = q.same ∙ sym (append-nil _);
      offset = omega (arith, q.offset);
    }
recv_loop-Receives c now (chunk ∷ chunks) v g h = elim (Bool-cases (length chunk == 0)) [
  | inl e ↦
      let q : HasRoom c.in_buf (make_room c.in_buf) = make_room-HasRoom c.in_buf v (omega arith) in
      rw e (record {
        valid = q.valid;
        bytes = q.same ∙ sym (append-nil _);
        offset = omega (arith, q.offset);
      })
  | inr e ↦
      let g' : Grows (c.in_buf.write_offset + length (chunk ++ received chunks) + 2048) =
        rw e at g in
      let l = length-append chunk (received chunks) in
      let d = take_chunk c now chunk in
      let k : Receives c chunk d = take_chunk-Receives c now chunk v (omega (arith, g')) h.0 in
      let r : Receives d (received chunks) (recv_loop d now chunks) =
        recv_loop-Receives d now chunks k.valid (omega (arith, g', k.offset, l)) h.1 in
      rw e (record {
        valid = r.valid;
        bytes =
            r.bytes
            ∙ ap (λ ys. ys ++ received chunks) k.bytes
            ∙ append_assoc (content c.in_buf) chunk (received chunks);
        offset = omega (arith, r.offset, k.offset, l);
      })
]
