-- ===== src/Pdu/SimpleBuffer/Content.antt =====
-- SimpleBuffer as a first-in first-out queue of bytes.
use xx_chat.Base.{
  ℕ, ◌+◌, ◌-◌, ◌/◌, ◌^◌, ◌≤◌, ◌<◌, ◌≡◌, refl, ap, ◌∙◌, inl, inr, Option, none, some, List, ◌++◌,
  length, take, replicate, write_at, ltb, if◌then◌else◌, arith, length-append, length-take,
  length-replicate, length-write_at, take-write_at, take-append_le, take-take_le, take_all,
  Bool-cases,
}
use xx_chat.Pdu.SimpleBuffer.{SimpleBuffer, u32, realloc, empty, extend, write}

-- The bytes in use, oldest first.
abbrev pub content : SimpleBuffer → List ℕ
content b = take b.write_offset b.buffer

pub record IsValid (b : SimpleBuffer) : Type 0 where
  pub block : length b.buffer ≡ b.alloc_size
  pub within : b.write_offset ≤ b.alloc_size
  pub small : b.alloc_size < 2 ^ 32

-- The size that `extend` computes for `len` more bytes does not wrap.
abbrev pub Fits : SimpleBuffer → ℕ → Type 0
Fits b len = (b.write_offset + len) + (b.write_offset + len) / 4 < 2 ^ 32

pub empty-IsValid : IsValid empty
unfolding empty
empty-IsValid = omega arith

pub length-content : (b : SimpleBuffer) → IsValid b → length (content b) ≡ b.write_offset
length-content b v = omega (arith, length-take b.write_offset b.buffer, v.block)

pub length-realloc : (xs : List ℕ) (n : ℕ) → length (realloc xs n) ≡ n
length-realloc xs n = omega (
  arith,
  length-append (take n xs) (replicate (n - length xs) 0),
  length-take n xs,
  length-replicate {A = ℕ} (n - length xs) 0,
)

pub take-realloc :
    (xs : List ℕ) (m n : ℕ) → m ≤ length xs → m ≤ n → take m (realloc xs n) ≡ take m xs
take-realloc xs m n h k =
    take-append_le m (take n xs) (replicate (n - length xs) 0) (omega (arith, length-take n xs))
    ∙ take-take_le m n xs k

pub extend-IsValid : (b : SimpleBuffer) (len : ℕ) → IsValid b → Fits b len → IsValid (extend b len)
unfolding extend
extend-IsValid b len v f = record {
  block = length-realloc b.buffer _;
  within = omega arith;
  small = omega arith;
}

-- `extend` keeps the bytes in use and makes room for `len` more.
pub extend_lem :
    (b : SimpleBuffer) (len : ℕ)
    → IsValid b
    → Fits b len
    → (content (extend b len) ≡ content b) × (b.write_offset + len ≤ (extend b len).alloc_size)
unfolding extend
extend_lem b len v f =
    (take-realloc b.buffer b.write_offset _ (omega (arith, v.block)) (omega arith), omega arith)

-- The buffer that `write` works on has room for `len` more bytes.
record Roomy (b r : SimpleBuffer) (len : ℕ) : Type 0 where
  valid : IsValid r
  same : content r ≡ content b
  offset : r.write_offset ≡ b.write_offset
  room : b.write_offset + len ≤ r.alloc_size

abbrev roomy : SimpleBuffer → ℕ → SimpleBuffer
roomy b len = if ltb b.alloc_size (u32 (b.write_offset + len)) then extend b len else b

roomy-Roomy : (b : SimpleBuffer) (len : ℕ) → IsValid b → Fits b len → Roomy b (roomy b len) len
roomy-Roomy b len v f = elim (Bool-cases (ltb b.alloc_size (u32 (b.write_offset + len)))) [
  | inl e ↦ rw e (record {
    valid = extend-IsValid b len v f;
    same = (extend_lem b len v f).0;
    offset = unfold extend in refl;
    room = (extend_lem b len v f).1;
  })
  | inr e ↦ rw e (record { valid = v; same = refl; offset = refl; room = ground arith })
]

write-Roomy :
    (b r : SimpleBuffer) (len : ℕ) (xs : List ℕ)
    → Roomy b r len
    → len ≤ length xs
    → take (u32 (r.write_offset + len)) (write_at r.buffer r.write_offset (take len xs))
      ≡ content b ++ take len xs
write-Roomy b r len xs q e =
    take-write_at r.buffer r.write_offset (take len xs) _ (omega (arith, length-take len xs))
      (omega arith)
    ∙ ap (λ ys. ys ++ take len xs) q.same

-- `write` appends the first `len` bytes of the source.
pub content-write-take :
    (b : SimpleBuffer) (len : ℕ) (xs : List ℕ)
    → IsValid b
    → Fits b len
    → len ≤ length xs
    → content (write b (some xs) len) ≡ content b ++ take len xs
unfolding write
content-write-take b len xs v f e = write-Roomy b (roomy b len) len xs (roomy-Roomy b len v f) e

pub content-write :
    (b : SimpleBuffer) (len : ℕ) (xs : List ℕ)
    → IsValid b
    → Fits b len
    → length xs ≡ len
    → content (write b (some xs) len) ≡ content b ++ xs
content-write b len xs v f e =
    content-write-take b len xs v f (omega arith)
    ∙ ap (λ ys. content b ++ ys) (take_all len xs (omega arith))

pub write_offset-write :
    (b : SimpleBuffer) (src : Option (List ℕ)) (len : ℕ)
    → IsValid b
    → Fits b len
    → (write b src len).write_offset ≡ b.write_offset + len
unfolding write
write_offset-write b src len v f = omega (arith, (roomy-Roomy b len v f).offset)

pub write-IsValid :
    (b : SimpleBuffer) (src : Option (List ℕ)) (len : ℕ)
    → IsValid b
    → Fits b len
    → IsValid (write b src len)
unfolding write
write-IsValid b none len v f =
    let q : Roomy b (roomy b len) len = roomy-Roomy b len v f in
    record { block = q.valid.block; within = omega arith; small = q.valid.small }
write-IsValid b (some xs) len v f =
    let q : Roomy b (roomy b len) len = roomy-Roomy b len v f in
    record {
      block = length-write_at (roomy b len).buffer _ (take len xs) ∙ q.valid.block;
      within = omega arith;
      small = q.valid.small;
    }

pub write_offset-extend :
    (b : SimpleBuffer) (len : ℕ) → (extend b len).write_offset ≡ b.write_offset
unfolding extend
write_offset-extend b len = refl

-- Only the first `len` bytes of the source matter.
pub write_cong :
    (b : SimpleBuffer) (len : ℕ) (xs ys : List ℕ)
    → take len xs ≡ take len ys
    → write b (some xs) len ≡ write b (some ys) len
unfolding write
write_cong b len xs ys e =
    let r = roomy b len in
    λ i. record r {
      buffer = write_at r.buffer r.write_offset (e i);
      write_offset = u32 (r.write_offset + len);
    }
