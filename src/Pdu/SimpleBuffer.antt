-- ===== src/Pdu/SimpleBuffer.antt =====
-- The class SimpleBuffer of xx_chat_server/src/base/util_pdu.h and util_pdu.cpp: a growing block
-- of bytes that is written at its end and read at its front.
pub mod Content
pub mod Reading
use xx_chat.Base.{
  ℕ, ◌+◌, ◌-◌, ◌/◌, ◌%◌, ◌^◌, Option, none, some, List, [], ◌++◌, length, take, drop, replicate,
  write_at, ltb, if◌then◌else◌,
}

-- `buffer` is the allocated block, `write_offset` the number of its bytes that are in use.
pub record SimpleBuffer : Type 0 where
  pub buffer : List ℕ
  pub alloc_size : ℕ
  pub write_offset : ℕ

-- The arithmetic of uint32_t.
abbrev pub u32 : ℕ → ℕ
u32 n = n % 2 ^ 32

-- The bytes of `realloc` that were not there before have no determined value: here they are 0.
abbrev pub realloc : List ℕ → ℕ → List ℕ
realloc xs n = take n xs ++ replicate (n - length xs) 0

unfoldable pub empty : SimpleBuffer
empty = record { buffer = []; alloc_size = 0; write_offset = 0 }

unfoldable pub inc_write_offset : SimpleBuffer → ℕ → SimpleBuffer
inc_write_offset b len = record b { write_offset = u32 (b.write_offset + len) }

-- The size of the block that `extend` asks for.
abbrev pub grown : ℕ → ℕ
grown n = u32 (n + n / 4)

unfoldable pub extend : SimpleBuffer → ℕ → SimpleBuffer
extend b len = record b { buffer = realloc b.buffer size; alloc_size = size }
  where
    size : ℕ
    size = grown (u32 (b.write_offset + len))

-- `none` is the source NULL, which only makes room. `some xs` is a source of `len` bytes. The
-- function returns `len`.
unfoldable pub write : SimpleBuffer → Option (List ℕ) → ℕ → SimpleBuffer
unfolding extend
write b src len = record roomy {
  buffer = elim src [
    | none ↦ roomy.buffer
    | some xs ↦ write_at roomy.buffer roomy.write_offset (take len xs)
  ];
  write_offset = u32 (roomy.write_offset + len);
}
  where
    roomy : SimpleBuffer
    roomy = if ltb b.alloc_size (u32 (b.write_offset + len)) then extend b len else b

-- The bytes that are copied to the destination (if it is not NULL), their number, and the buffer.
unfoldable pub read : SimpleBuffer → ℕ → List ℕ × ℕ × SimpleBuffer
read b len = (
  take n b.buffer,
  n,
  record b { buffer = write_at b.buffer 0 (take rest (drop n b.buffer)); write_offset = rest },
)
  where
    n : ℕ
    n = if ltb b.write_offset len then b.write_offset else len

    rest : ℕ
    rest = b.write_offset - n
