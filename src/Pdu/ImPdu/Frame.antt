-- ===== src/Pdu/ImPdu/Frame.antt =====
-- The bytes of a message, and how ImPdu::WriteHeader and the setters lay them out.
use xx_chat.Base.{
  ℕ, ◌+◌, ◌%◌, ◌^◌, ◌≤◌, ◌≡◌, refl, sym, ap, ◌∙◌, subst, write_at, write_at-nil, List, [], ◌∷◌,
  ◌++◌, length, drop, arith,
}
use xx_chat.Pdu.Words.{bytes16, bytes32, write_uint16, write_int32}
use xx_chat.Pdu.ImPdu.{
  ImPdu, PduHeader, get_length, write_header, set_version, set_flag, set_service_id, set_command_id,
  set_error, set_seq_num, set_reversed,
}

abbrev pub frame : PduHeader → List ℕ → List ℕ
frame h body =
    bytes32 h.length
    ++ (bytes16 h.version
        ++ (bytes16 h.flag
            ++ (bytes16 h.service_id
                ++ (bytes16 h.command_id ++ (bytes16 h.seq_num ++ (bytes16 h.reversed ++ body))))))

split4 :
    (xs : List ℕ)
    → 4 ≤ length xs
    → (a b c d : ℕ) × (r : List ℕ) × (xs ≡ a ∷ b ∷ c ∷ d ∷ r) × (length xs ≡ 4 + length r)
split4 [] h = absurd (omega arith)
split4 (a ∷ []) h = absurd (omega arith)
split4 (a ∷ b ∷ []) h = absurd (omega arith)
split4 (a ∷ b ∷ c ∷ []) h = absurd (omega arith)
split4 (a ∷ b ∷ c ∷ d ∷ r) h = (a, b, c, d, r, refl, omega arith)

-- A list that shows its first 16 items.
data Cells : List ℕ → Type 0 where
  cells :
      (a b c d e f g h i j k l m n o q : ℕ) (r : List ℕ)
      → Cells (a ∷ b ∷ c ∷ d ∷ e ∷ f ∷ g ∷ h ∷ i ∷ j ∷ k ∷ l ∷ m ∷ n ∷ o ∷ q ∷ r)

split16 : (xs : List ℕ) → 16 ≤ length xs → Cells xs
split16 xs h =
    let (a1, b1, c1, d1, r1, e1, l1) = split4 xs (omega arith) in
    let (a2, b2, c2, d2, r2, e2, l2) = split4 r1 (omega arith) in
    let (a3, b3, c3, d3, r3, e3, l3) = split4 r2 (omega arith) in
    let (a4, b4, c4, d4, r4, e4, l4) = split4 r3 (omega arith) in
    subst Cells
      (sym (
        e1
        ∙ ap (λ r. a1 ∷ b1 ∷ c1 ∷ d1 ∷ r)
            (e2 ∙ ap (λ r. a2 ∷ b2 ∷ c2 ∷ d2 ∷ r) (e3 ∙ ap (λ r. a3 ∷ b3 ∷ c3 ∷ d3 ∷ r) e4))))
      (cells a1 b1 c1 d1 a2 b2 c2 d2 a3 b3 c3 d3 a4 b4 c4 d4 r4)

-- The header's fields, written one behind the other into a block.
overwrite : List ℕ → PduHeader → List ℕ
overwrite xs h =
    write_uint16
      (write_uint16
        (write_uint16
          (write_uint16
            (write_uint16 (write_uint16 (write_int32 xs 0 h.length) 4 h.version) 6 h.flag) 8
            h.service_id)
          10 h.command_id)
        12 h.seq_num)
      14 h.reversed

overwrite_lem : (xs : List ℕ) (h : PduHeader) → Cells xs → overwrite xs h ≡ frame h (drop 16 xs)
unfolding overwrite write_int32 write_uint16 bytes16 bytes32
overwrite_lem _ hd (cells a b c d e f g h i j k l m n o q r) = rw write_at-nil

-- `WriteHeader` overwrites the first 16 bytes, and only those.
pub write_header_lem :
    (p : ImPdu)
    → 16 ≤ length p.buf.buffer
    → (write_header p).buf.buffer
      ≡ frame (record p.header { length = p.buf.write_offset }) (drop 16 p.buf.buffer)
unfolding write_header get_length overwrite
write_header_lem p h =
    overwrite_lem p.buf.buffer (record p.header { length = p.buf.write_offset })
      (split16 p.buf.buffer h)

-- The buffer of `p` begins with the frame of `h` and `body`.
pub record Framed (p : ImPdu) (h : PduHeader) (body : List ℕ) : Type 0 where
  pub tail : List ℕ
  pub bytes : p.buf.buffer ≡ frame h body ++ tail
  pub offset : p.buf.write_offset ≡ 16 + length body

module _ {p : ImPdu} {h : PduHeader} {body : List ℕ} (f : Framed p h body) (n : ℕ) where
  pub set_version-Framed : Framed (set_version p n) (record h { version = n }) body
  unfolding set_version write_uint16 bytes16 bytes32
  set_version-Framed = record { tail = f.tail; bytes = rw f.bytes; offset = f.offset }

  pub set_flag-Framed : Framed (set_flag p n) (record h { flag = n }) body
  unfolding set_flag write_uint16 bytes16 bytes32
  set_flag-Framed = record { tail = f.tail; bytes = rw f.bytes; offset = f.offset }

  pub set_service_id-Framed : Framed (set_service_id p n) (record h { service_id = n }) body
  unfolding set_service_id write_uint16 bytes16 bytes32
  set_service_id-Framed = record { tail = f.tail; bytes = rw f.bytes; offset = f.offset }

  pub set_command_id-Framed : Framed (set_command_id p n) (record h { command_id = n }) body
  unfolding set_command_id write_uint16 bytes16 bytes32
  set_command_id-Framed = record { tail = f.tail; bytes = rw f.bytes; offset = f.offset }

  -- `SetError` and `SetSeqNum` write the same two bytes.
  pub set_error-Framed : Framed (set_error p n) (record h { seq_num = n }) body
  unfolding set_error write_uint16 bytes16 bytes32
  set_error-Framed = record { tail = f.tail; bytes = rw f.bytes; offset = f.offset }

  pub set_seq_num-Framed : Framed (set_seq_num p n) (record h { seq_num = n }) body
  unfolding set_seq_num write_uint16 bytes16 bytes32
  set_seq_num-Framed = record { tail = f.tail; bytes = rw f.bytes; offset = f.offset }

  pub set_reversed-Framed : Framed (set_reversed p n) (record h { reversed = n % 2 ^ 16 }) body
  unfolding set_reversed write_uint16 bytes16 bytes32
  set_reversed-Framed = record {
    tail = f.tail;
    bytes = ap (λ ys. write_at ys 14 (bytes16 (n % 2 ^ 16))) f.bytes ∙ rw write_at-nil;
    offset = f.offset;
  }
