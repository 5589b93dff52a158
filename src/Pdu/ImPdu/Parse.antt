-- ===== src/Pdu/ImPdu/Parse.antt =====
-- ImPdu::IsPduAvailable and ImPdu::ReadPdu on received bytes.
use xx_chat.Base.{
  ◌≢◌, ℕ, ◌+◌, ◌^◌, ◌≤◌, ◌<◌, ◌≡◌, refl, true, some, none, List, ◌++◌, length, arith, ◌⊎◌,
}
use xx_chat.Pdu.Exception.{ok, throw, pdu_exception}
use xx_chat.Pdu.Words.{bytes16, bytes32, read_uint32}
use xx_chat.Pdu.ByteStream.{of_bytes}
use xx_chat.Pdu.ByteStream.Reading.{at_pos, get_uint16_lem, get_uint32_lem}
use xx_chat.Pdu.ImPdu.{ImPdu, PduHeader, read_fields, read_pdu_header, is_pdu_available}
use xx_chat.Pdu.ImPdu.Frame.{frame}

-- The values that the header's types have.
pub record InRange (h : PduHeader) : Type 0 where
  pub length_in : h.length < 2 ^ 32
  pub version_in : h.version < 2 ^ 16
  pub flag_in : h.flag < 2 ^ 16
  pub service_id_in : h.service_id < 2 ^ 16
  pub command_id_in : h.command_id < 2 ^ 16
  pub seq_num_in : h.seq_num < 2 ^ 16
  pub reversed_in : h.reversed < 2 ^ 16

read_fields_lem :
    (h : PduHeader) (rest : List ℕ) → InRange h → read_fields (at_pos (frame h rest) 16 0) ≡ ok h
unfolding read_fields bytes16 bytes32
read_fields_lem h rest r =
    let b7 : List ℕ = bytes16 h.reversed ++ rest in
    let b6 : List ℕ = bytes16 h.seq_num ++ b7 in
    let b5 : List ℕ = bytes16 h.command_id ++ b6 in
    let b4 : List ℕ = bytes16 h.service_id ++ b5 in
    let b3 : List ℕ = bytes16 h.flag ++ b4 in
    let b2 : List ℕ = bytes16 h.version ++ b3 in
    let buf : List ℕ = frame h rest in
    let small : 16 < 2 ^ 32 = omega arith in
    rw (
      get_uint32_lem buf 16 0 small h.length b2 r.length_in refl (omega arith),
      get_uint16_lem buf 16 4 small h.version b3 r.version_in refl (omega arith),
      get_uint16_lem buf 16 6 small h.flag b4 r.flag_in refl (omega arith),
      get_uint16_lem buf 16 8 small h.service_id b5 r.service_id_in refl (omega arith),
      get_uint16_lem buf 16 10 small h.command_id b6 r.command_id_in refl (omega arith),
      get_uint16_lem buf 16 12 small h.seq_num b7 r.seq_num_in refl (omega arith),
      get_uint16_lem buf 16 14 small h.reversed rest r.reversed_in refl (omega arith),
    )

pub length-frame : (h : PduHeader) (body : List ℕ) → length (frame h body) ≡ 16 + length body
unfolding bytes16 bytes32
length-frame h body = omega arith

pub read_uint32-frame :
    (h : PduHeader) (body rest : List ℕ)
    → h.length < 2 ^ 32
    → read_uint32 (frame h body ++ rest) ≡ h.length
unfolding read_uint32 bytes16 bytes32
read_uint32-frame h body rest r = omega arith

-- The cases of `IsPduAvailable`: too few bytes for a header, or fewer than the header says; a
-- length of 0; a message.
pub is_pdu_available-short :
    (buf : List ℕ) (len : ℕ)
    → (len < 16) ⊎ (len < read_uint32 buf)
    → is_pdu_available buf len ≡ ok none
unfolding is_pdu_available
is_pdu_available-short buf len h = ground arith

pub is_pdu_available-zero :
    (buf : List ℕ) (len : ℕ)
    → 16 ≤ len
    → read_uint32 buf ≡ 0
    → is_pdu_available buf len ≡ throw (pdu_exception 1 "pdu_len is 0")
unfolding is_pdu_available
is_pdu_available-zero buf len h e = ground arith

pub is_pdu_available-some :
    (buf : List ℕ) (len : ℕ)
    → 16 ≤ len
    → read_uint32 buf ≢ 0
    → read_uint32 buf ≤ len
    → is_pdu_available buf len ≡ ok (some (read_uint32 buf))
unfolding is_pdu_available
is_pdu_available-some buf len h e l = ground arith

-- `ReadPduHeader` reads any block that begins with a frame.
read_pdu_header_lem :
    (p : ImPdu) (h : PduHeader) (rest : List ℕ)
    → InRange h
    → read_pdu_header p (some (frame h rest)) 16 ≡ ok (true, record p { header = h })
unfolding read_pdu_header of_bytes
read_pdu_header_lem p h rest r = rw (read_fields_lem h rest r)
