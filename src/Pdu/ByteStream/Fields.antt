-- ===== src/Pdu/ByteStream/Fields.antt =====
-- A sequence of fields, written by the operators of ByteStream to a SimpleBuffer and read from the
-- bytes of it.
use xx_chat.Base.{
  ℕ, ◌+◌, ◌/◌, ◌^◌, ◌≤◌, ◌<◌, ◌≡◌, refl, ap, ◌∙◌, some, List, [], ◌∷◌, ◌++◌, All, length, take,
  drop, arith, append_assoc, append-nil, length-append, take-append_length,
}
use xx_chat.Pdu.Words.{bytes16, bytes32}
use xx_chat.Pdu.Words.RoundTrip.{length-bytes16, length-bytes32}
use xx_chat.Pdu.Exception.{Result, ok, ◌>>=◌}
use xx_chat.Pdu.SimpleBuffer
use xx_chat.Pdu.SimpleBuffer.{SimpleBuffer, u32}
use xx_chat.Pdu.SimpleBuffer.Content.{
  content, IsValid, content-write, write_offset-write, write-IsValid,
}
use xx_chat.Pdu.ByteStream.{
  ByteStream, simple, write_byte, put_uint8, put_uint16, put_uint32, write_string, get_uint8,
  get_uint16, get_uint32, read_string,
}
use xx_chat.Pdu.ByteStream.Reading.{
  at_pos, get_uint8_lem, get_uint16_lem, get_uint32_lem, read_string_lem, drop_behind,
}

pub data Field : Type 0 where
  byte word dword : ℕ → Field
  text : List ℕ → Field

pub data Kind : Type 0 where
  byte word dword text : Kind

abbrev pub kind : Field → Kind
kind (Field.byte n) = Kind.byte
kind (Field.word n) = Kind.word
kind (Field.dword n) = Kind.dword
kind (Field.text bs) = Kind.text

-- The values that the field's type has.
abbrev pub InRange : Field → Type 0
InRange (Field.byte n) = n < 2 ^ 8
InRange (Field.word n) = n < 2 ^ 16
InRange (Field.dword n) = n < 2 ^ 32
InRange (Field.text bs) = length bs < 2 ^ 32

unfoldable pub put_field : ByteStream → Field → ByteStream
put_field s (Field.byte n) = put_uint8 s n
put_field s (Field.word n) = put_uint16 s n
put_field s (Field.dword n) = put_uint32 s n
put_field s (Field.text bs) = write_string s bs (length bs)

unfoldable pub put_fields : ByteStream → List Field → ByteStream
put_fields s [] = s
put_fields s (f ∷ fs) = put_fields (put_field s f) fs

unfoldable pub get_field : ByteStream → Kind → Result (Field × ByteStream)
get_field s Kind.byte = do (n, s') ← get_uint8 s; ok (Field.byte n, s')
get_field s Kind.word = do (n, s') ← get_uint16 s; ok (Field.word n, s')
get_field s Kind.dword = do (n, s') ← get_uint32 s; ok (Field.dword n, s')
get_field s Kind.text = do (n, mem, s') ← read_string s; ok (Field.text (take n mem), s')

unfoldable pub get_fields : ByteStream → List Kind → Result (List Field × ByteStream)
get_fields s [] = ok ([], s)
get_fields s (k ∷ ks) = do (f, s') ← get_field s k; (fs, s'') ← get_fields s' ks; ok (f ∷ fs, s'')

abbrev pub kinds : List Field → List Kind
kinds [] = []
kinds (f ∷ fs) = kind f ∷ kinds fs

-- The bytes on the wire.
abbrev pub field_bytes : Field → List ℕ
field_bytes (Field.byte n) = n ∷ []
field_bytes (Field.word n) = bytes16 n
field_bytes (Field.dword n) = bytes32 n
field_bytes (Field.text bs) = bytes32 (length bs) ++ bs

abbrev pub fields_bytes : List Field → List ℕ
fields_bytes [] = []
fields_bytes (f ∷ fs) = field_bytes f ++ fields_bytes fs

-- The stream is over a buffer that holds `bytes`.
pub record Holds (s : ByteStream) (bytes : List ℕ) : Type 0 where
  pub store : SimpleBuffer
  pub over : s.backing ≡ simple store
  pub valid : IsValid store
  pub same : content store ≡ bytes
  pub offset : store.write_offset ≡ length bytes

-- A buffer that holds this many bytes can be grown.
abbrev pub Grows : ℕ → Type 0
Grows n = n + n / 4 < 2 ^ 32

write_byte-Holds :
    (s : ByteStream) (bytes new : List ℕ) (k : ℕ)
    → Holds s bytes
    → length new ≡ k
    → Grows (length bytes + k)
    → Holds (write_byte s new k) (bytes ++ new)
unfolding write_byte
write_byte-Holds s bytes new k h e g = rw h.over (record {
  store = SimpleBuffer.write h.store (some new) k;
  over = refl;
  valid = write-IsValid h.store (some new) k h.valid (rw h.offset g);
  same = content-write h.store k new h.valid (rw h.offset g) e ∙ ap (λ ys. ys ++ new) h.same;
  offset = omega (
    arith,
    write_offset-write h.store (some new) k h.valid (rw h.offset g),
    length-append bytes new,
    h.offset,
  );
})

put_field-Holds :
    (s : ByteStream) (bytes : List ℕ) (f : Field)
    → Holds s bytes
    → Grows (length bytes + length (field_bytes f))
    → Holds (put_field s f) (bytes ++ field_bytes f)
unfolding put_field put_uint8 put_uint16 put_uint32 write_string
put_field-Holds s bytes (Field.byte n) h g = write_byte-Holds s bytes (n ∷ []) 1 h refl g
put_field-Holds s bytes (Field.word n) h g =
    write_byte-Holds s bytes (bytes16 n) 2 h (length-bytes16 n) (rw length-bytes16 at g)
put_field-Holds s bytes (Field.dword n) h g =
    write_byte-Holds s bytes (bytes32 n) 4 h (length-bytes32 n) (rw length-bytes32 at g)
put_field-Holds s bytes (Field.text bs) h g =
    let head = bytes32 (length bs) in
    let l : length head ≡ 4 = length-bytes32 (length bs) in
    let size : length (head ++ bs) ≡ 4 + length bs = omega (arith, length-append head bs, l) in
    rw (← append_assoc bytes head bs) (
      write_byte-Holds _ (bytes ++ head) bs (length bs)
        (write_byte-Holds s bytes head 4 h l (omega (arith, size))) refl
        (omega (arith, size, length-append bytes head, l)))

pub put_fields-Holds :
    (s : ByteStream) (bytes : List ℕ) (fs : List Field)
    → Holds s bytes
    → Grows (length bytes + length (fields_bytes fs))
    → Holds (put_fields s fs) (bytes ++ fields_bytes fs)
unfolding put_fields
put_fields-Holds s bytes [] h g = rw append-nil h
put_fields-Holds s bytes (f ∷ fs) h g =
    let l = length-append (field_bytes f) (fields_bytes fs) in
    rw (← append_assoc bytes (field_bytes f) (fields_bytes fs)) (
      put_fields-Holds (put_field s f) (bytes ++ field_bytes f) fs
        (put_field-Holds s bytes f h (omega (arith, l)))
        (omega (arith, l, length-append bytes (field_bytes f))))

get_field_lem :
    (buf : List ℕ) (len pos : ℕ) (f : Field) (rest : List ℕ)
    → len < 2 ^ 32
    → InRange f
    → drop pos buf ≡ field_bytes f ++ rest
    → pos + length (field_bytes f) ≤ len
    → get_field (at_pos buf len pos) (kind f)
      ≡ ok (f, at_pos buf len (pos + length (field_bytes f)))
unfolding get_field
get_field_lem buf len pos (Field.byte n) rest small r e h =
    rw (get_uint8_lem buf len pos small n rest e h)
get_field_lem buf len pos (Field.word n) rest small r e h =
    let l = length-bytes16 n in
    rw (l, get_uint16_lem buf len pos small n rest r e (omega (arith, l)))
get_field_lem buf len pos (Field.dword n) rest small r e h =
    let l = length-bytes32 n in
    rw (l, get_uint32_lem buf len pos small n rest r e (omega (arith, l)))
get_field_lem buf len pos (Field.text bs) rest small r e h =
    let head = bytes32 (length bs) in
    let l : length (head ++ bs) ≡ 4 + length bs =
      omega (arith, length-append head bs, length-bytes32 (length bs)) in
    let p : pos + length (head ++ bs) ≡ pos + 4 + length bs = omega (arith, l) in
    rw (
      p,
      read_string_lem buf len pos small (length bs) (bs ++ rest) r (e ∙ append_assoc head bs rest)
          (omega (arith, l)),
      take-append_length bs rest,
    )

pub get_fields_lem :
    (buf : List ℕ) (len pos : ℕ) (fs : List Field) (rest : List ℕ)
    → len < 2 ^ 32
    → All InRange fs
    → drop pos buf ≡ fields_bytes fs ++ rest
    → pos + length (fields_bytes fs) ≤ len
    → get_fields (at_pos buf len pos) (kinds fs)
      ≡ ok (fs, at_pos buf len (pos + length (fields_bytes fs)))
unfolding get_fields
get_fields_lem buf len pos [] rest small r e h = ap (λ k. ok ([], at_pos buf len k)) (omega arith)
get_fields_lem buf len pos (f ∷ fs) rest small r e h =
    let bytes = field_bytes f in
    let l : length (bytes ++ fields_bytes fs) ≡ length bytes + length (fields_bytes fs) =
      length-append bytes (fields_bytes fs) in
    let e' : drop pos buf ≡ bytes ++ (fields_bytes fs ++ rest) =
      e ∙ append_assoc bytes (fields_bytes fs) rest in
    let p : pos + length (bytes ++ fields_bytes fs)
        ≡ pos + length bytes + length (fields_bytes fs) =
      omega (arith, l) in
    rw (
      p,
      get_field_lem buf len pos f (fields_bytes fs ++ rest) small r.0 e' (omega (arith, l)),
      get_fields_lem buf len (pos + length bytes) fs rest small r.1
          (drop_behind buf bytes (fields_bytes fs ++ rest) pos (length bytes) e' refl)
          (omega (arith, l)),
    )
