-- ===== src/Net/Buffer.antt =====
-- The class Buffer of xx_chat_server/src/net/buffer.h and buffer.cpp: a block of bytes with free
-- space in front of and behind the readable ones.
-- `none` is a failed assert. A pointer into the block is an index of it. A signed integer stands for
-- its bit pattern. `internalCapacity`, which depends on the allocator, is left out.
pub mod Content
pub mod Reading
pub mod Int
mod Tests
use xx_chat.Base.{
  ℕ, zero, suc, ◌+◌, ◌-◌, ◌*◌, ◌/◌, ◌%◌, ◌^◌, Bool, true, false, ◌&&◌, Option, none, some, List, [],
  ◌∷◌, ◌++◌, length, take, drop, get_or, replicate, write_at, ltb, leb, ◌==◌, if◌then◌else◌,
}
use xx_chat.Base.Options.{◌>>=◌, ◌>>◌, assert}

pub record Buffer : Type 0 where
  pub buffer : List ℕ
  pub reader_index : ℕ
  pub writer_index : ℕ

-- size_t
abbrev pub add_size : ℕ → ℕ → ℕ
add_size a b = (a + b) % 2 ^ 64

abbrev pub sub_size : ℕ → ℕ → ℕ
sub_size a b = (a + 2 ^ 64 - b) % 2 ^ 64

abbrev pub cheap_prepend : ℕ
cheap_prepend = 8

abbrev pub initial_size : ℕ
initial_size = 1024

-- `std::vector::resize` fills with 0.
abbrev pub resize : List ℕ → ℕ → List ℕ
resize xs n = take n xs ++ replicate (n - length xs) 0

unfoldable pub readable_bytes : Buffer → ℕ
readable_bytes b = sub_size b.writer_index b.reader_index

unfoldable pub writable_bytes : Buffer → ℕ
writable_bytes b = sub_size (length b.buffer) b.writer_index

unfoldable pub prependable_bytes : Buffer → ℕ
prependable_bytes b = b.reader_index

unfoldable pub new_buffer : ℕ → Option Buffer
new_buffer initial = do
  let b : Buffer = record {
    buffer = replicate (cheap_prepend + initial) 0;
    reader_index = cheap_prepend;
    writer_index = cheap_prepend;
  }
  assert (readable_bytes b == 0)
  assert (writable_bytes b == initial)
  assert (prependable_bytes b == cheap_prepend)
  some b

-- The memory from `peek()` on.
unfoldable pub peek : Buffer → List ℕ
peek b = drop b.reader_index b.buffer

unfoldable pub begin_write : Buffer → ℕ
begin_write b = b.writer_index

-- The index of the first CRLF of a list that begins at `at_`, as `std::search` finds it.
search_crlf : List ℕ → ℕ → Option ℕ
search_crlf [] at_ = none
search_crlf (x ∷ []) at_ = none
search_crlf (x ∷ y ∷ xs) at_ =
    let rest = search_crlf (y ∷ xs) (at_ + 1) in if (x == 13) && (y == 10) then some at_ else rest

-- `memchr`
search_eol : List ℕ → ℕ → Option ℕ
search_eol [] at_ = none
search_eol (x ∷ xs) at_ = let rest = search_eol xs (at_ + 1) in if x == 10 then some at_ else rest

unfoldable pub find_crlf : Buffer → Option ℕ
unfolding search_crlf
find_crlf b = search_crlf (take (readable_bytes b) (peek b)) b.reader_index

unfoldable pub find_crlf_from : Buffer → ℕ → Option (Option ℕ)
unfolding search_crlf
find_crlf_from b start = do
  assert (leb b.reader_index start)
  assert (leb start b.writer_index)
  some (search_crlf (take (b.writer_index - start) (drop start b.buffer)) start)

unfoldable pub find_eol : Buffer → Option ℕ
unfolding search_eol
find_eol b = search_eol (take (readable_bytes b) (peek b)) b.reader_index

unfoldable pub find_eol_from : Buffer → ℕ → Option (Option ℕ)
unfolding search_eol
find_eol_from b start = do
  assert (leb b.reader_index start)
  assert (leb start b.writer_index)
  some (search_eol (take (b.writer_index - start) (drop start b.buffer)) start)

unfoldable pub retrieve_all : Buffer → Buffer
retrieve_all b = record b { reader_index = cheap_prepend; writer_index = cheap_prepend }

unfoldable pub retrieve : Buffer → ℕ → Option Buffer
unfolding readable_bytes
retrieve b len = do
  assert (leb len (readable_bytes b))
  some (
      if ltb len (readable_bytes b)
      then record b { reader_index = add_size b.reader_index len }
      else retrieve_all b)

unfoldable pub retrieve_until : Buffer → ℕ → Option Buffer
retrieve_until b end_ = do
  assert (leb b.reader_index end_)
  assert (leb end_ b.writer_index)
  retrieve b (end_ - b.reader_index)

unfoldable pub retrieve_as_string : Buffer → ℕ → Option (List ℕ × Buffer)
retrieve_as_string b len = do
  assert (leb len (readable_bytes b))
  b' ← retrieve b len
  some (take len (peek b), b')

unfoldable pub retrieve_all_as_string : Buffer → Option (List ℕ × Buffer)
retrieve_all_as_string b = retrieve_as_string b (readable_bytes b)

-- The length goes through an `int`; a negative one is no length of a string.
unfoldable pub to_string_piece : Buffer → Option (List ℕ)
to_string_piece b =
    let n = readable_bytes b % 2 ^ 32 in if ltb n (2 ^ 31) then some (take n (peek b)) else none

unfoldable pub has_written : Buffer → ℕ → Option Buffer
has_written b len = do
  assert (leb len (writable_bytes b))
  some (record b { writer_index = add_size b.writer_index len })

unfoldable pub unwrite : Buffer → ℕ → Option Buffer
unwrite b len = do
  assert (leb len (readable_bytes b))
  some (record b { writer_index = sub_size b.writer_index len })

-- The buffer whose readable bytes are moved to the front.
abbrev pub moved : Buffer → Buffer
moved b = record {
  buffer =
      write_at b.buffer cheap_prepend
        (take (b.writer_index - b.reader_index) (drop b.reader_index b.buffer));
  reader_index = cheap_prepend;
  writer_index = add_size cheap_prepend (readable_bytes b);
}

unfoldable pub make_space : Buffer → ℕ → Option Buffer
make_space b len =
    if ltb (add_size (writable_bytes b) (prependable_bytes b)) (add_size len cheap_prepend)
    then some (record b { buffer = resize b.buffer (add_size b.writer_index len) })
    else (do
      assert (ltb cheap_prepend b.reader_index)
      assert (readable_bytes b == readable_bytes (moved b))
      some (moved b))

unfoldable pub ensure_writable_bytes : Buffer → ℕ → Option Buffer
ensure_writable_bytes b len = do
  b' ← if ltb (writable_bytes b) len then make_space b len else some b
  assert (leb len (writable_bytes b'))
  some b'

unfoldable pub append : Buffer → List ℕ → ℕ → Option Buffer
append b bytes len = do
  b' ← ensure_writable_bytes b len
  has_written (record b' { buffer = write_at b'.buffer (begin_write b') (take len bytes) }) len

unfoldable pub append_string : Buffer → List ℕ → Option Buffer
append_string b str = append b str (length str)

unfoldable pub prepend : Buffer → List ℕ → ℕ → Option Buffer
prepend b bytes len = do
  assert (leb len (prependable_bytes b))
  let start = sub_size b.reader_index len
  some (record b { buffer = write_at b.buffer start (take len bytes); reader_index = start })

unfoldable pub shrink : Buffer → ℕ → Option Buffer
shrink b reserve = do
  other ← new_buffer initial_size
  other' ← ensure_writable_bytes other (add_size (readable_bytes b) reserve)
  piece ← to_string_piece b
  append_string other' piece

-- `readv` into the writable bytes and, if these are few, an array of 65536 more. `none` is a
-- negative return value.
unfoldable pub read_fd : Buffer → Option (List ℕ) → Option Buffer
read_fd b none = some b
read_fd b (some bytes) =
    let n = length bytes in
    let room = writable_bytes b in
    let filled = write_at b.buffer b.writer_index (take room bytes) in
    if leb n room
    then some (record b { buffer = filled; writer_index = add_size b.writer_index n })
    else append (record b { buffer = filled; writer_index = length b.buffer }) (drop room bytes)
        (sub_size n room)
