-- ===== src/Pdu/ImPdu/Read.antt =====
-- ImPdu::ReadPdu: which bytes become a message, and what the message says of them.
use xx_chat.Base.{
  ◌≢◌, ℕ, ◌+◌, ◌-◌, ◌/◌, ◌^◌, ◌≤◌, ◌<◌, ◌≡◌, refl, ap, ◌∙◌, true, some, List, ◌++◌, length, take,
  drop, arith, length-append, take-append_length, take-drop,
}
use xx_chat.Pdu.SimpleBuffer
use xx_chat.Pdu.SimpleBuffer.{SimpleBuffer, u32}
use xx_chat.Pdu.SimpleBuffer.Content.{
  content, IsValid, empty-IsValid, content-write-take, write_offset-write, write-IsValid,
}
use xx_chat.Pdu.Exception.{ok}
use xx_chat.Pdu.Words.{bytes16, bytes32, read_uint16, read_uint32}
use xx_chat.Pdu.ByteStream.{of_bytes, get_uint16, get_uint32, read_byte}
use xx_chat.Pdu.ImPdu.{
  ImPdu, PduHeader, new_pdu, write, get_length, get_body_length, get_body_data, read_fields,
  read_pdu_header, read_pdu,
}
use xx_chat.Pdu.ImPdu.Frame.{frame}
use xx_chat.Pdu.ImPdu.Parse.{InRange, read_uint32-frame, length-frame, is_pdu_available-some}

-- The header that the first 16 bytes hold.
abbrev pub header_of : List ℕ → PduHeader
header_of buf = record {
  length = read_uint32 (take 4 buf);
  version = read_uint16 (take 2 (drop 4 buf));
  flag = read_uint16 (take 2 (drop 6 buf));
  service_id = read_uint16 (take 2 (drop 8 buf));
  command_id = read_uint16 (take 2 (drop 10 buf));
  seq_num = read_uint16 (take 2 (drop 12 buf));
  reversed = read_uint16 (take 2 (drop 14 buf));
}

read_pdu_header-any :
    (p : ImPdu) (buf : List ℕ)
    → read_pdu_header p (some buf) 16 ≡ ok (true, record p { header = header_of buf })
unfolding read_pdu_header read_fields of_bytes get_uint16 get_uint32 read_byte
read_pdu_header-any p buf = refl

-- The message that `ReadPdu` makes of the first `n` bytes.
abbrev pub message_of : List ℕ → ℕ → ImPdu
message_of buf n = record {
  buf = SimpleBuffer.write SimpleBuffer.empty (some buf) n;
  header = header_of buf;
}

-- A header whose length is neither 0 nor more than there is makes a message.
pub read_pdu-some :
    (buf : List ℕ) (len : ℕ)
    → 16 ≤ len
    → read_uint32 buf ≢ 0
    → read_uint32 buf ≤ len
    → read_pdu buf len ≡ ok (some (message_of buf (read_uint32 buf)))
unfolding read_pdu write new_pdu
read_pdu-some buf len h z l = rw (
  is_pdu_available-some buf len h z l,
  read_pdu_header-any (write new_pdu buf (read_uint32 buf)) buf,
)

-- The message holds exactly these bytes.
pub message_of_lem :
    (buf : List ℕ) (n : ℕ)
    → n ≤ length buf
    → n + n / 4 < 2 ^ 32
    → IsValid (message_of buf n).buf
      × (content (message_of buf n).buf ≡ take n buf)
      × (get_length (message_of buf n) ≡ n)
unfolding get_length SimpleBuffer.empty
message_of_lem buf n h g = (
  write-IsValid SimpleBuffer.empty (some buf) n empty-IsValid (omega arith),
  content-write-take SimpleBuffer.empty n buf empty-IsValid (omega arith) h,
  write_offset-write SimpleBuffer.empty (some buf) n empty-IsValid (omega arith) ∙ omega arith,
)

-- What `header_of` reads of a frame.
header_of-frame :
    (h : PduHeader) (body rest : List ℕ) → InRange h → header_of (frame h body ++ rest) ≡ h
unfolding bytes16 bytes32 read_uint16 read_uint32
header_of-frame h body rest r =
    let x : PduHeader = header_of (frame h body ++ rest) in
    let l : x.length ≡ h.length = omega arith in
    let v : x.version ≡ h.version = omega arith in
    let f : x.flag ≡ h.flag = omega arith in
    let s : x.service_id ≡ h.service_id = omega arith in
    let c : x.command_id ≡ h.command_id = omega arith in
    let q : x.seq_num ≡ h.seq_num = omega arith in
    let w : x.reversed ≡ h.reversed = omega arith in
    λ i. record {
      length = l i;
      version = v i;
      flag = f i;
      service_id = s i;
      command_id = c i;
      seq_num = q i;
      reversed = w i;
    }

drop-frame : (h : PduHeader) (body : List ℕ) → drop 16 (frame h body) ≡ body
unfolding bytes16 bytes32
drop-frame h body = refl

-- `GetBodyLength` bytes from `GetBodyData` on are the message behind its header.
pub body_lem :
    (p : ImPdu)
    → 16 ≤ p.buf.write_offset
    → p.buf.write_offset < 2 ^ 32
    → (get_body_length p ≡ p.buf.write_offset - 16)
      × (take (get_body_length p) (get_body_data p) ≡ drop 16 (content p.buf))
unfolding get_body_length get_body_data
body_lem p h g =
    let n : get_body_length p ≡ p.buf.write_offset - 16 = omega arith in
    (
      n,
      ap (λ k. take k (drop 16 p.buf.buffer)) n
          ∙ take-drop (p.buf.write_offset - 16) 16 p.buf.buffer
          ∙ ap (λ k. drop 16 (take k p.buf.buffer)) (omega arith),
    )

-- A frame whose length field is its length, at the front of received bytes, is read as a message
-- with the frame's header and with exactly the frame's body.
pub read_pdu-frame :
    (h : PduHeader) (body rest : List ℕ) (len : ℕ)
    → InRange h
    → h.length ≡ 16 + length body
    → h.length + h.length / 4 < 2 ^ 32
    → h.length ≤ len
    → (p : ImPdu) × (read_pdu (frame h body ++ rest) len ≡ ok (some p))
      × (p.header ≡ h)
      × (content p.buf ≡ frame h body)
      × (get_body_length p ≡ length body)
      × (take (get_body_length p) (get_body_data p) ≡ body)
read_pdu-frame h body rest len r e g l =
    let buf = frame h body ++ rest in
    let n : read_uint32 buf ≡ h.length = read_uint32-frame h body rest r.length_in in
    let k : length buf ≡ 16 + length body + length rest =
      omega (arith, length-append (frame h body) rest, length-frame h body) in
    let p = message_of buf h.length in
    let m = message_of_lem buf h.length (omega arith) g in
    let c : content p.buf ≡ frame h body =
      m.1
      ∙ ap (λ j. take j buf) (omega (arith, length-frame h body))
      ∙ take-append_length (frame h body) rest in
    let o : p.buf.write_offset ≡ h.length = unfold get_length in m.2 in
    let b = body_lem p (omega arith) (omega arith) in
    (
      p,
      read_pdu-some buf len (omega arith) (omega arith) (omega arith)
          ∙ ap (λ j. ok (some (message_of buf j))) n,
      header_of-frame h body rest r,
      c,
      omega (arith, b.0),
      b.1 ∙ ap (drop 16) c ∙ drop-frame h body,
    )

-- A header that gives a length from 1 to 15, more than 0 and less than the header itself, is
-- accepted as a message all the same, and `GetBodyLength` of it wraps to nearly 2 ^ 32.
pub read_pdu-undersized :
    (buf : List ℕ) (len : ℕ)
    → 16 ≤ len
    → len ≤ length buf
    → 0 < read_uint32 buf
    → read_uint32 buf < 16
    → (p : ImPdu) × (read_pdu buf len ≡ ok (some p))
      × (get_body_length p ≡ 2 ^ 32 - 16 + read_uint32 buf)
      × (get_length p < get_body_length p)
unfolding get_body_length get_length
read_pdu-undersized buf len h k z u =
    let n = read_uint32 buf in
    let o = (message_of_lem buf n (omega arith) (omega arith)).2 in
    (
      message_of buf n,
      read_pdu-some buf len h (omega arith) (omega arith),
      omega (arith, o),
      omega (arith, o),
    )
