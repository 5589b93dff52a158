-- ===== src/Pdu/ImPdu/Build.antt =====
-- ImPdu::SetPBMsg makes a frame of a serialised message.
use xx_chat.Base.{
  ℕ, ◌+◌, ◌/◌, ◌^◌, ◌<◌, ◌≡◌, refl, sym, ap, ◌∙◌, some, none, List, ◌++◌, length, drop, arith,
  take-append-drop, append_assoc, drop-append_length,
}
use xx_chat.Pdu.SimpleBuffer
use xx_chat.Pdu.SimpleBuffer.{SimpleBuffer, u32}
use xx_chat.Pdu.SimpleBuffer.Content.{
  content, IsValid, length-content, content-write, write_offset-write, write-IsValid,
}
use xx_chat.Pdu.SimpleBuffer.Reading.{Reads, read-Reads}
use xx_chat.Pdu.Words.{bytes16, bytes32}
use xx_chat.Pdu.ImPdu.{ImPdu, PduHeader, Message, header_len, set_pb_msg, write_header}
use xx_chat.Pdu.ImPdu.Frame.{frame, Framed, write_header_lem}

-- `SerializeToArray` fills an array of `ByteSize()` bytes, which a buffer can hold behind a header.
pub record IsSendable (msg : Message) : Type 0 where
  pub sized : length msg.serialized ≡ msg.byte_size
  pub fits : (16 + msg.byte_size) + (16 + msg.byte_size) / 4 < 2 ^ 32

-- The buffer that `write_header` gets.
record Filled (b : SimpleBuffer) (body : List ℕ) : Type 0 where
  valid : IsValid b
  offset : b.write_offset ≡ 16 + length body
  behind : (t : List ℕ) × (drop 16 b.buffer ≡ body ++ t)

filled : (p : ImPdu) (msg : Message) → SimpleBuffer
filled p msg =
    let cleared = (SimpleBuffer.read p.buf p.buf.write_offset).2 in
    let headed = SimpleBuffer.write cleared none header_len in
    SimpleBuffer.write headed (some msg.serialized) msg.byte_size

filled-Filled :
    (p : ImPdu) (msg : Message)
    → IsValid p.buf
    → IsSendable msg
    → Filled (filled p msg) msg.serialized
unfolding filled
filled-Filled p msg v s =
    let n = msg.byte_size in
    let cleared = (SimpleBuffer.read p.buf p.buf.write_offset).2 in
    let r : Reads p.buf p.buf.write_offset (SimpleBuffer.read p.buf p.buf.write_offset) =
      read-Reads p.buf p.buf.write_offset v in
    let headed = SimpleBuffer.write cleared none header_len in
    let v1 : IsValid headed =
      write-IsValid cleared none header_len r.valid (omega (arith, r.offset, s.fits)) in
    let o1 : headed.write_offset ≡ 16 = omega (
      arith,
      r.offset,
      write_offset-write cleared none header_len r.valid (omega (arith, r.offset, s.fits)),
    ) in
    let last = SimpleBuffer.write headed (some msg.serialized) n in
    let c : content last ≡ content headed ++ msg.serialized =
      content-write headed n msg.serialized v1 (omega (arith, o1, s.fits)) s.sized in
    let o2 : last.write_offset ≡ 16 + n = omega (
      arith,
      o1,
      write_offset-write headed (some msg.serialized) n v1 (omega (arith, o1, s.fits)),
    ) in
    let l : length (content headed) ≡ 16 = length-content headed v1 ∙ o1 in
    let t = drop last.write_offset last.buffer in
    record {
      valid = write-IsValid headed (some msg.serialized) n v1 (omega (arith, o1, s.fits));
      offset = omega (arith, o2, s.sized);
      behind = (
        t,
        ap (drop 16) (
              sym (take-append-drop last.write_offset last.buffer)
              ∙ ap (λ ys. ys ++ t) c
              ∙ append_assoc (content headed) msg.serialized t)
            ∙ ap (λ k. drop k (content headed ++ (msg.serialized ++ t))) (sym l)
            ∙ drop-append_length (content headed) (msg.serialized ++ t),
      );
    }

regroup : (h : PduHeader) (body t : List ℕ) → frame h (body ++ t) ≡ frame h body ++ t
unfolding bytes16 bytes32
regroup h body t = refl

-- `SetPBMsg` leaves a frame of the message's header, with the length that the bytes have, and of
-- the serialised message, whatever the buffer held before.
pub set_pb_msg-Framed :
    (p : ImPdu) (msg : Message)
    → IsValid p.buf
    → IsSendable msg
    → Framed (set_pb_msg p msg) (record p.header { length = 16 + msg.byte_size }) msg.serialized
unfolding set_pb_msg filled
set_pb_msg-Framed p msg v s =
    let b = filled p msg in
    let q : Filled b msg.serialized = filled-Filled p msg v s in
    let n : b.write_offset ≡ 16 + msg.byte_size = omega (arith, q.offset, s.sized) in
    record {
      tail = q.behind.0;
      bytes =
          write_header_lem (record p { buf = b }) (omega (arith, q.valid, q.offset))
          ∙ ap (λ k. frame (record p.header { length = k }) (drop 16 b.buffer)) n
          ∙ ap (frame (record p.header { length = 16 + msg.byte_size })) q.behind.1
          ∙ regroup (record p.header { length = 16 + msg.byte_size }) msg.serialized q.behind.0;
      offset = unfold write_header in q.offset;
    }
