-- ===== src/Pdu/ByteStream/RoundTrip.antt =====
-- What the stream operators write, they read.
use xx_chat.Base.{
  ◌≡◌, refl, sym, ap, ◌∙◌, List, [], ◌++◌, All, length, drop, arith, take-append-drop,
}
use xx_chat.Pdu.Exception.{ok}
use xx_chat.Pdu.SimpleBuffer.{SimpleBuffer, empty}
use xx_chat.Pdu.SimpleBuffer.Content.{empty-IsValid}
use xx_chat.Pdu.ByteStream.{ByteStream, simple, of_bytes, of_simple_buffer}
use xx_chat.Pdu.ByteStream.Reading.{at_pos}
use xx_chat.Pdu.ByteStream.Fields.{
  Field, InRange, Grows, Holds, put_fields, get_fields, kinds, fields_bytes, put_fields-Holds,
  get_fields_lem,
}

pub empty-Holds : Holds (of_simple_buffer empty 0) []
unfolding of_simple_buffer empty
empty-Holds = record {
  store = empty;
  over = refl;
  valid = empty-IsValid;
  same = refl;
  offset = refl;
}

-- From the bytes that a stream has put in its buffer, the fields are read.
pub get_fields-Holds :
    (s : ByteStream) (fs : List Field) (h : Holds s (fields_bytes fs))
    → All InRange fs
    → get_fields (of_bytes h.store.buffer h.store.write_offset) (kinds fs)
      ≡ ok (fs, at_pos h.store.buffer h.store.write_offset h.store.write_offset)
unfolding of_bytes
get_fields-Holds s fs h r =
    let b = h.store in
    let e : b.buffer ≡ fields_bytes fs ++ drop b.write_offset b.buffer =
      sym (take-append-drop b.write_offset b.buffer)
      ∙ ap (λ ys. ys ++ drop b.write_offset b.buffer) h.same in
    get_fields_lem b.buffer b.write_offset 0 fs (drop b.write_offset b.buffer)
      (omega (arith, h.valid)) r e (omega (arith, h.offset))
    ∙ ap (λ k. ok (fs, at_pos b.buffer b.write_offset k)) (omega (arith, h.offset))

-- Any sequence of fields of one, two and four bytes and of strings, each in the range of its type
-- and together small enough for a buffer, is written to an empty SimpleBuffer so that reading the
-- fields of the same kinds from that buffer gives them back and ends at its last byte.
pub fields_round_trip :
    (fs : List Field)
    → All InRange fs
    → Grows (length (fields_bytes fs))
    → (b : SimpleBuffer) × ((put_fields (of_simple_buffer empty 0) fs).backing ≡ simple b)
      × (get_fields (of_bytes b.buffer b.write_offset) (kinds fs)
          ≡ ok (fs, at_pos b.buffer b.write_offset b.write_offset))
fields_round_trip fs r g =
    let h : Holds (put_fields (of_simple_buffer empty 0) fs) (fields_bytes fs) =
      put_fields-Holds (of_simple_buffer empty 0) [] fs empty-Holds (omega arith) in
    (h.store, h.over, get_fields-Holds _ fs h r)
