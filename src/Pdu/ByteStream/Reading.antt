-- ===== src/Pdu/ByteStream/Reading.antt =====
-- The reading operators of ByteStream on a block of memory.
use xx_chat.Base.{
  ℕ, ◌+◌, ◌^◌, ◌≤◌, ◌<◌, ◌≡◌, sym, ap, ◌∙◌, List, ◌∷◌, ◌++◌, length, take, drop, arith, le→ltb,
  lt→ltb, drop-drop, drop-append_length,
}
use xx_chat.Pdu.Words.{bytes16, bytes32, read_uint16, read_uint32}
use xx_chat.Pdu.Words.RoundTrip.{length-bytes32}
use xx_chat.Pdu.Exception.{ok, throw, parse_failed}
use xx_chat.Pdu.SimpleBuffer.{u32}
use xx_chat.Pdu.ByteStream.{
  ByteStream, raw, skip, read_byte, get_buf, get_uint8, get_uint16, get_uint32, read_string,
}

-- A stream over `buf` that stands at `pos`.
abbrev pub at_pos : List ℕ → ℕ → ℕ → ByteStream
at_pos buf len pos = record { backing = raw buf; len = len; pos = pos }

pub skip_lem :
    (buf : List ℕ) (len pos k : ℕ)
    → len < 2 ^ 32
    → pos + k ≤ len
    → skip (at_pos buf len pos) k ≡ ok (at_pos buf len (pos + k))
unfolding skip
skip_lem buf len pos k small h =
    let e : u32 (pos + k) ≡ pos + k = omega arith in rw (e, le→ltb len (pos + k) h)

-- What stands behind `k` bytes of what stands at `pos`.
pub drop_behind :
    (buf bytes rest : List ℕ) (pos k : ℕ)
    → drop pos buf ≡ bytes ++ rest
    → length bytes ≡ k
    → drop (pos + k) buf ≡ rest
drop_behind buf bytes rest pos k e l =
    sym (drop-drop k pos buf)
    ∙ ap (drop k) e
    ∙ ap (λ m. drop m (bytes ++ rest)) (sym l)
    ∙ drop-append_length bytes rest

module _ (buf : List ℕ) (len pos : ℕ) (small : len < 2 ^ 32) where
  pub read_byte_lem :
      (k : ℕ)
      → pos + k ≤ len
      → read_byte (at_pos buf len pos) k ≡ ok (take k (drop pos buf), at_pos buf len (pos + k))
  unfolding read_byte
  read_byte_lem k h =
      let e : u32 (pos + k) ≡ pos + k = omega arith in rw (e, le→ltb len (pos + k) h)

  -- It refuses to read behind the end.
  pub read_byte_short :
      (k : ℕ)
      → len < pos + k
      → pos + k < 2 ^ 32
      → read_byte (at_pos buf len pos) k ≡ throw parse_failed
  unfolding read_byte
  read_byte_short k h g =
      let e : u32 (pos + k) ≡ pos + k = omega arith in rw (e, lt→ltb len (pos + k) h)

  pub get_uint8_lem :
      (n : ℕ) (rest : List ℕ)
      → drop pos buf ≡ n ∷ rest
      → pos + 1 ≤ len
      → get_uint8 (at_pos buf len pos) ≡ ok (n, at_pos buf len (pos + 1))
  unfolding get_uint8
  get_uint8_lem n rest e h = rw (read_byte_lem 1 h, e)

  pub get_uint16_lem :
      (n : ℕ) (rest : List ℕ)
      → n < 2 ^ 16
      → drop pos buf ≡ bytes16 n ++ rest
      → pos + 2 ≤ len
      → get_uint16 (at_pos buf len pos) ≡ ok (n, at_pos buf len (pos + 2))
  unfolding get_uint16
  get_uint16_lem n rest b e h =
      rw (read_byte_lem 2 h, e)
        (unfold bytes16 read_uint16 in ap (λ m. ok (m, at_pos buf len (pos + 2))) (omega arith))

  pub get_uint32_lem :
      (n : ℕ) (rest : List ℕ)
      → n < 2 ^ 32
      → drop pos buf ≡ bytes32 n ++ rest
      → pos + 4 ≤ len
      → get_uint32 (at_pos buf len pos) ≡ ok (n, at_pos buf len (pos + 4))
  unfolding get_uint32
  get_uint32_lem n rest b e h =
      rw (read_byte_lem 4 h, e)
        (unfold bytes32 read_uint32 in ap (λ m. ok (m, at_pos buf len (pos + 4))) (omega arith))

  -- A string is read as its length and a pointer to its bytes.
  pub read_string_lem :
      (n : ℕ) (rest : List ℕ)
      → n < 2 ^ 32
      → drop pos buf ≡ bytes32 n ++ rest
      → pos + 4 + n ≤ len
      → read_string (at_pos buf len pos) ≡ ok (n, rest, at_pos buf len (pos + 4 + n))
  unfolding read_string get_buf
  read_string_lem n rest b e h = rw (
    get_uint32_lem n rest b e (omega arith),
    skip_lem buf len (pos + 4) n small h,
    get_buf,
    drop_behind buf (bytes32 n) rest pos 4 e (length-bytes32 n),
  )
