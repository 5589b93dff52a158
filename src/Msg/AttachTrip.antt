-- ===== src/Msg/AttachTrip.antt =====
-- AttachData goes to the database server and comes back as it was.
use xx_chat.Base.{ℕ, ◌≡◌, refl, ap, ◌∙◌, ◌<◌, ◌^◌, List, [], ◌∷◌, arith}
use xx_chat.Pdu.Exception.{Result, ok, throw, ◌>>=◌, parse_failed}
use xx_chat.Pdu.SimpleBuffer.{SimpleBuffer}
use xx_chat.Pdu.Words.{bytes32}
use xx_chat.Pdu.ByteStream.{ByteStream, simple, of_bytes, get_uint32}
use xx_chat.Pdu.ByteStream.Fields.{Field, Kind, put_field, put_fields, get_field, get_fields}
use xx_chat.Pdu.ByteStream.RoundTrip.{fields_round_trip}
use xx_chat.Msg.Attach.{AttachData, serialize, deserialize}

-- Three double words as an AttachData.
abbrev of_fields : Result (List Field × ByteStream) → Result AttachData
of_fields (throw e) = throw e
of_fields (ok (Field.dword t ∷ Field.dword h ∷ Field.dword v ∷ [], s)) =
    ok (record { type_ = t; handle = h; service_type = v })
of_fields (ok r) = throw parse_failed

abbrev pub attach : ℕ → ℕ → ℕ → AttachData
attach t h v = record { type_ = t; handle = h; service_type = v }

abbrev words : List Kind
words = Kind.dword ∷ Kind.dword ∷ Kind.dword ∷ []

third :
    (t h : ℕ) (r : Result (ℕ × ByteStream))
    → (r >>= λ (v, s). ok (attach t h v))
      ≡ of_fields (
          ((((r >>= λ (v, s). ok (Field.dword v, s)) >>= λ (f, s). ok (f ∷ [], s)) >>= λ (fs, s).
          ok (Field.dword h ∷ fs, s)))
          >>= λ (fs, s). ok (Field.dword t ∷ fs, s))
third t h (throw e) = refl
third t h (ok (v, s)) = refl

second :
    (t : ℕ) (r : Result (ℕ × ByteStream))
    → (r >>= λ (h, s). get_uint32 s >>= λ (v, s'). ok (attach t h v))
      ≡ of_fields (
          ((r >>= λ (h, s). ok (Field.dword h, s)) >>= λ (f, s).
          get_fields s (Kind.dword ∷ []) >>= λ (fs, s'). ok (f ∷ fs, s'))
          >>= λ (fs, s). ok (Field.dword t ∷ fs, s))
unfolding get_fields get_field
second t (throw e) = refl
second t (ok (h, s)) = third t h (get_uint32 s)

first :
    (r : Result (ℕ × ByteStream))
    → (r >>= λ (t, s). get_uint32 s >>= λ (h, s'). get_uint32 s' >>= λ (v, s''). ok (attach t h v))
      ≡ of_fields (
          (r >>= λ (t, s). ok (Field.dword t, s)) >>= λ (f, s).
          get_fields s (Kind.dword ∷ Kind.dword ∷ []) >>= λ (fs, s'). ok (f ∷ fs, s'))
unfolding get_fields get_field
first (throw e) = refl
first (ok (t, s)) = second t (get_uint32 s)

deserialize_lem :
    (bytes : List ℕ) (len : ℕ)
    → deserialize bytes len ≡ of_fields (get_fields (of_bytes bytes len) words)
unfolding deserialize get_fields get_field
deserialize_lem bytes len = first (get_uint32 (of_bytes bytes len))

-- What an AttachData of three uint32_t serializes to its buffer, the constructor that reads it gives
-- back, from the bytes of the buffer and its length.
pub deserialize-serialize :
    (t h v : ℕ)
    → t < 2 ^ 32
    → h < 2 ^ 32
    → v < 2 ^ 32
    → (b : SimpleBuffer) × ((serialize t h v).backing ≡ simple b)
      × (deserialize b.buffer b.write_offset ≡ ok (attach t h v))
unfolding serialize put_fields put_field bytes32
deserialize-serialize t h v lt lh lv =
    let (b, e, q) =
      fields_round_trip (Field.dword t ∷ Field.dword h ∷ Field.dword v ∷ []) (lt, (lh, (lv, tt)))
        (omega arith) in
    (b, e, deserialize_lem b.buffer b.write_offset ∙ ap of_fields q)
