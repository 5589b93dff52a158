-- ===== src/Pdu/ImPdu/RoundTrip.antt =====
-- A message that one server builds is the message that the other reads.
use xx_chat.Base.{
  ℕ, ◌+◌, ◌^◌, ◌≤◌, ◌<◌, ◌≡◌, sym, ap, ◌∙◌, some, List, ◌++◌, take, arith, take-append_length,
}
use xx_chat.Pdu.SimpleBuffer.Content.{IsValid}
use xx_chat.Pdu.Exception.{ok}
use xx_chat.Pdu.ImPdu.{
  ImPdu, PduHeader, Message, get_buffer, get_length, get_body_length, get_body_data, set_pb_msg,
  set_service_id, set_command_id, set_seq_num, read_pdu,
}
use xx_chat.Pdu.ImPdu.Frame.{
  frame, Framed, set_service_id-Framed, set_command_id-Framed, set_seq_num-Framed,
}
use xx_chat.Pdu.ImPdu.Build.{IsSendable, set_pb_msg-Framed}
use xx_chat.Pdu.ImPdu.Parse.{InRange, length-frame}
use xx_chat.Pdu.ImPdu.Read.{read_pdu-frame}

-- The bytes that `SendPdu` sends.
abbrev pub wire : ImPdu → List ℕ
wire p = take (get_length p) (get_buffer p)

wire_lem : {p : ImPdu} {h : PduHeader} {body : List ℕ} → Framed p h body → wire p ≡ frame h body
unfolding get_length get_buffer
wire_lem {p} {h} {body} f =
    ap (λ xs. take p.buf.write_offset xs) f.bytes
    ∙ ap (λ k. take k (frame h body ++ f.tail)) (f.offset ∙ sym (length-frame h body))
    ∙ take-append_length (frame h body) f.tail

-- The calls by which the servers make a message of a protobuf message.
unfoldable pub built : ImPdu → Message → ℕ → ℕ → ℕ → ImPdu
built p msg service_id command_id seq_num =
    set_seq_num (set_command_id (set_service_id (set_pb_msg p msg) service_id) command_id) seq_num

-- For a message that is built by SetPBMsg, SetServiceId, SetCommandId and SetSeqNum from values in
-- the range of their types, and whose bytes stand at the front of what was received: ReadPdu finds a
-- message with these identifiers and this sequence number, and its body is the serialised message.
pub read_pdu-built :
    (p : ImPdu) (msg : Message) (service_id command_id seq_num : ℕ) (rest : List ℕ) (len : ℕ)
    → IsValid p.buf
    → InRange p.header
    → IsSendable msg
    → service_id < 2 ^ 16
    → command_id < 2 ^ 16
    → seq_num < 2 ^ 16
    → 16 + msg.byte_size ≤ len
    → (r : ImPdu) × (read_pdu (wire (built p msg service_id command_id seq_num) ++ rest) len
        ≡ ok (some r))
      × (r.header.service_id ≡ service_id)
      × (r.header.command_id ≡ command_id)
      × (r.header.seq_num ≡ seq_num)
      × (take (get_body_length r) (get_body_data r) ≡ msg.serialized)
unfolding built
read_pdu-built p msg sid cid seq rest len v r s hs hc hq l =
    let h : PduHeader = record p.header {
      length = 16 + msg.byte_size;
      service_id = sid;
      command_id = cid;
      seq_num = seq;
    } in
    let f0 = set_pb_msg-Framed p msg v s in
    let f1 = set_service_id-Framed f0 sid in
    let f2 = set_command_id-Framed f1 cid in
    let f : Framed (built p msg sid cid seq) h msg.serialized = set_seq_num-Framed f2 seq in
    let (m, reading, header, bytes, size, body) =
      read_pdu-frame h msg.serialized rest len (omega (arith, r, s)) (omega (arith, s))
        (omega (arith, s)) l in
    (
      m,
      ap (λ xs. read_pdu (xs ++ rest) len) (wire_lem f) ∙ reading,
      ap (λ k. k.service_id) header,
      ap (λ k. k.command_id) header,
      ap (λ k. k.seq_num) header,
      body,
    )
