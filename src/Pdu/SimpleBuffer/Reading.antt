-- ===== src/Pdu/SimpleBuffer/Reading.antt =====
-- What SimpleBuffer::Read takes and leaves.
use xx_chat.Base.{
  ℕ, min, ◌+◌, ◌-◌, ◌≤◌, ◌<◌, ◌≡◌, refl, sym, ap, ◌∙◌, inl, inr, List, length, take, drop, write_at,
  ltb, if◌then◌else◌, arith, length-take, length-drop, length-write_at, take-write_at, take-take_le,
  take-drop, take_all, drop_all, Bool-cases, ltb→lt,
}
use xx_chat.Pdu.SimpleBuffer.{SimpleBuffer, inc_write_offset, read}
use xx_chat.Pdu.SimpleBuffer.Content.{content, IsValid, length-content}

-- Moving the bytes behind the first `n` to the front leaves them as the content.
content_moved :
    (b : SimpleBuffer) (n rest : ℕ)
    → IsValid b
    → n + rest ≡ b.write_offset
    → take rest (write_at b.buffer 0 (take rest (drop n b.buffer))) ≡ drop n (content b)
content_moved b n rest v e =
    take-write_at b.buffer 0 (take rest (drop n b.buffer)) rest
      (omega (arith, length-take rest (drop n b.buffer), length-drop n b.buffer, v.block))
      (omega (arith, v.block))
    ∙ take-drop rest n b.buffer
    ∙ ap (λ k. drop n (take k b.buffer)) e

taken : SimpleBuffer → ℕ → ℕ
taken b len = if ltb b.write_offset len then b.write_offset else len

taken_lem : (b : SimpleBuffer) (len : ℕ) → taken b len ≡ min len b.write_offset
unfolding taken
taken_lem b len = ground arith

take-drop-min :
    (xs : List ℕ) (len : ℕ)
    → (take (min len (length xs)) xs ≡ take len xs) × (drop (min len (length xs)) xs ≡ drop len xs)
take-drop-min xs len = elim (Bool-cases (ltb (length xs) len)) [
  | inl e ↦
      let h : length xs < len = ltb→lt _ _ e in
      let m : min len (length xs) ≡ length xs = omega arith in
      rw m (
        take_all (length xs) xs (omega arith) ∙ sym (take_all len xs (omega arith)),
        drop_all (length xs) xs (omega arith) ∙ sym (drop_all len xs (omega arith)),
      )
  | inr e ↦ let m : min len (length xs) ≡ len = ground arith in rw m (refl, refl)
]

pub record Reads (b : SimpleBuffer) (len : ℕ) (r : List ℕ × ℕ × SimpleBuffer) : Type 0 where
  pub bytes : r.0 ≡ take len (content b)
  pub count : r.1 ≡ min len b.write_offset
  pub left : content r.2 ≡ drop len (content b)
  pub offset : r.2.write_offset ≡ b.write_offset - len
  pub valid : IsValid r.2

-- `read` takes the oldest `len` bytes, or all if there are fewer, and leaves the rest.
pub read-Reads : (b : SimpleBuffer) (len : ℕ) → IsValid b → Reads b len (read b len)
unfolding read taken
read-Reads b len v =
    let n : ℕ = taken b len in
    let e : n ≡ min len b.write_offset = taken_lem b len in
    let l : length (content b) ≡ b.write_offset = length-content b v in
    let m : n ≡ min len (length (content b)) = omega arith in
    let cut = take-drop-min (content b) len in
    record {
      bytes =
          sym (take-take_le n b.write_offset b.buffer (omega arith))
          ∙ ap (λ k. take k (content b)) m
          ∙ cut.0;
      count = e;
      left =
          content_moved b n (b.write_offset - n) v (omega arith)
          ∙ ap (λ k. drop k (content b)) m
          ∙ cut.1;
      offset = omega arith;
      valid = record {
        block = length-write_at b.buffer 0 _ ∙ v.block;
        within = omega arith;
        small = v.small;
      };
    }

-- `inc_write_offset` takes `len` bytes that the socket put behind the content as content.
pub inc_write_offset-IsValid :
    (b : SimpleBuffer) (len : ℕ)
    → IsValid b
    → b.write_offset + len ≤ b.alloc_size
    → IsValid (inc_write_offset b len)
unfolding inc_write_offset
inc_write_offset-IsValid b len v h = omega arith
