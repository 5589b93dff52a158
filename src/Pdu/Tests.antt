-- ===== src/Pdu/Tests.antt =====
-- Runs of the message classes, and their theorems at concrete values.
use xx_chat.Base.{ℕ, ◌<◌, ◌≡◌, refl, some, List, [], ◌∷◌, ◌++◌, take, arith}
use xx_chat.Pdu.SimpleBuffer
use xx_chat.Pdu.SimpleBuffer.{SimpleBuffer}
use xx_chat.Pdu.SimpleBuffer.Content.{IsValid, empty-IsValid}
use xx_chat.Pdu.SimpleBuffer.Reading.{Reads, read-Reads}
use xx_chat.Pdu.Words.{bytes16, bytes32, read_uint32}
use xx_chat.Pdu.Exception.{ok}
use xx_chat.Pdu.ByteStream.{simple, of_bytes, of_simple_buffer}
use xx_chat.Pdu.ByteStream.Reading.{at_pos}
use xx_chat.Pdu.ByteStream.Fields.{Field, put_fields, get_fields, kinds}
use xx_chat.Pdu.ByteStream.RoundTrip.{fields_round_trip}
use xx_chat.Pdu.ImPdu.{
  ImPdu, Message, new_pdu, get_length, get_body_length, get_body_data, read_pdu,
}
use xx_chat.Pdu.ImPdu.Read.{read_pdu-undersized}
use xx_chat.Pdu.ImPdu.RoundTrip.{wire, built, read_pdu-built}

abbrev three : SimpleBuffer
three = record { buffer = 7 ∷ 8 ∷ 9 ∷ 0 ∷ []; alloc_size = 4; write_offset = 3 }

three-IsValid : IsValid three
three-IsValid = omega arith

read_two :
    (SimpleBuffer.read three 2).2
    ≡ record { buffer = 9 ∷ 8 ∷ 9 ∷ 0 ∷ []; alloc_size = 4; write_offset = 1 }
unfolding SimpleBuffer.read
read_two = refl

read-Reads_example : Reads three 2 (SimpleBuffer.read three 2)
read-Reads_example = read-Reads three 2 three-IsValid

abbrev fields : List Field
fields = Field.byte 5 ∷ Field.dword 70000 ∷ Field.text (104 ∷ 105 ∷ []) ∷ Field.word 513 ∷ []

fields_round_trip_example :
    (b : SimpleBuffer) × ((put_fields (of_simple_buffer SimpleBuffer.empty 0) fields).backing
      ≡ simple b)
    × (get_fields (of_bytes b.buffer b.write_offset) (kinds fields)
        ≡ ok (fields, at_pos b.buffer b.write_offset b.write_offset))
unfolding bytes16 bytes32
fields_round_trip_example = fields_round_trip fields (omega arith) (omega arith)

abbrev hello : Message
hello = record { byte_size = 2; serialized = 10 ∷ 20 ∷ [] }

new_pdu-IsValid : IsValid new_pdu.buf
unfolding new_pdu
new_pdu-IsValid = empty-IsValid

read_pdu-built_example :
    (r : ImPdu) × (read_pdu (wire (built new_pdu hello 1 259 4) ++ (99 ∷ [])) 19 ≡ ok (some r))
    × (r.header.service_id ≡ 1)
    × (r.header.command_id ≡ 259)
    × (r.header.seq_num ≡ 4)
    × (take (get_body_length r) (get_body_data r) ≡ 10 ∷ 20 ∷ [])
unfolding new_pdu
read_pdu-built_example =
    read_pdu-built new_pdu hello 1 259 4 (99 ∷ []) 19 new_pdu-IsValid (omega arith)
      (record { sized = refl; fits = omega arith }) (omega arith) (omega arith) (omega arith)
      (omega arith)

-- 16 bytes whose header says that the message has 4.
abbrev undersized : List ℕ
undersized = 0 ∷ 0 ∷ 0 ∷ 4 ∷ 0 ∷ 1 ∷ 0 ∷ 0 ∷ 0 ∷ 7 ∷ 7 ∷ 1 ∷ 0 ∷ 0 ∷ 0 ∷ 0 ∷ []

read_pdu-undersized_example :
    (p : ImPdu) × (read_pdu undersized 16 ≡ ok (some p))
    × (get_body_length p ≡ 4294967284)
    × (get_length p < get_body_length p)
unfolding read_uint32
read_pdu-undersized_example =
    read_pdu-undersized undersized 16 (omega arith) (omega arith) (omega arith) (omega arith)
