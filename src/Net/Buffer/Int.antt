-- ===== src/Net/Buffer/Int.antt =====
-- The functions of Buffer on numbers of 8, 4, 2 and 1 bytes, buffer.cpp, with the byte orders of
-- xx_chat_server/src/net/z_endian.h. An intN_t is its bit pattern.
use xx_chat.Base.{
  ℕ, zero, suc, ◌+◌, ◌*◌, ◌/◌, ◌%◌, ◌^◌, ◌≤◌, ◌<◌, ◌≡◌, refl, sym, ap, ◌∙◌, Option, some, List, [],
  ◌∷◌, ◌++◌, length, take, drop, leb, arith, length-append, take_all, le→leb, take-append_le,
  drop-append_length,
}
use xx_chat.Base.Options.{◌>>=◌, ◌>>◌, assert, assert_lem}
use xx_chat.Net.Buffer.{Buffer, readable_bytes, peek, retrieve, append, prepend}
use xx_chat.Net.Buffer.Content.{content, IsValid, readable_bytes_lem, length-content}
use xx_chat.Net.Buffer.Reading.{retrieve-Takes, prepend_lem, peek_lem}

-- The `k` bytes of a number in network order: hostToNetwork64, 32 and 16.
unfoldable pub to_network : ℕ → ℕ → List ℕ
to_network zero x = []
to_network (suc k) x = to_network k (x / 256) ++ (x % 256 ∷ [])

-- The number after `acc` that bytes in network order are: networkToHost64, 32 and 16.
unfoldable pub to_host : ℕ → List ℕ → ℕ
to_host acc [] = acc
to_host acc (x ∷ xs) = to_host (acc * 256 + x) xs

abbrev append_int : ℕ → Buffer → ℕ → Option Buffer
append_int k b x = append b (to_network k x) k

abbrev prepend_int : ℕ → Buffer → ℕ → Option Buffer
prepend_int k b x = prepend b (to_network k x) k

abbrev peek_int : ℕ → Buffer → Option ℕ
peek_int k b = do assert (leb k (readable_bytes b)); some (to_host 0 (take k (peek b)))

abbrev read_int : ℕ → Buffer → Option (ℕ × Buffer)
read_int k b = do result ← peek_int k b; b' ← retrieve b k; some (result, b')

unfoldable pub append_int64 : Buffer → ℕ → Option Buffer
append_int64 b x = append_int 8 b x

unfoldable pub append_int32 : Buffer → ℕ → Option Buffer
append_int32 b x = append_int 4 b x

unfoldable pub append_int16 : Buffer → ℕ → Option Buffer
append_int16 b x = append_int 2 b x

unfoldable pub append_int8 : Buffer → ℕ → Option Buffer
append_int8 b x = append_int 1 b x

unfoldable pub peek_int64 : Buffer → Option ℕ
peek_int64 b = peek_int 8 b

unfoldable pub peek_int32 : Buffer → Option ℕ
peek_int32 b = peek_int 4 b

unfoldable pub peek_int16 : Buffer → Option ℕ
peek_int16 b = peek_int 2 b

unfoldable pub peek_int8 : Buffer → Option ℕ
peek_int8 b = peek_int 1 b

unfoldable pub read_int64 : Buffer → Option (ℕ × Buffer)
read_int64 b = read_int 8 b

unfoldable pub read_int32 : Buffer → Option (ℕ × Buffer)
read_int32 b = read_int 4 b

unfoldable pub read_int16 : Buffer → Option (ℕ × Buffer)
read_int16 b = read_int 2 b

unfoldable pub read_int8 : Buffer → Option (ℕ × Buffer)
read_int8 b = read_int 1 b

unfoldable pub prepend_int64 : Buffer → ℕ → Option Buffer
prepend_int64 b x = prepend_int 8 b x

unfoldable pub prepend_int32 : Buffer → ℕ → Option Buffer
prepend_int32 b x = prepend_int 4 b x

unfoldable pub prepend_int16 : Buffer → ℕ → Option Buffer
prepend_int16 b x = prepend_int 2 b x

unfoldable pub prepend_int8 : Buffer → ℕ → Option Buffer
prepend_int8 b x = prepend_int 1 b x

length-to_network : (k x : ℕ) → length (to_network k x) ≡ k
unfolding to_network
length-to_network zero x = refl
length-to_network (suc k) x =
    omega
      (arith, length-to_network k (x / 256), length-append (to_network k (x / 256)) (x % 256 ∷ []))

to_host-append :
    (acc : ℕ) (xs : List ℕ) (y : ℕ) → to_host acc (xs ++ (y ∷ [])) ≡ to_host acc xs * 256 + y
unfolding to_host
to_host-append acc [] y = refl
to_host-append acc (x ∷ xs) y = to_host-append (acc * 256 + x) xs y

pub to_host-to_network : (k x : ℕ) → x < 256 ^ k → to_host 0 (to_network k x) ≡ x
unfolding to_host to_network
to_host-to_network zero x h = omega arith
to_host-to_network (suc k) x h =
    let ih = to_host-to_network k (x / 256) (omega arith) in
    to_host-append 0 (to_network k (x / 256)) (x % 256) ∙ omega (arith, ih)

-- The readable bytes begin with a number of `k` bytes.
record Begins (k : ℕ) (b : Buffer) (x : ℕ) (rest : List ℕ) : Type 0 where
  valid : IsValid b
  block : 8 ≤ length b.buffer
  bytes : content b ≡ to_network k x ++ rest
  small : x < 256 ^ k

peek_int_lem :
    (k : ℕ) (b : Buffer) (x : ℕ) (rest : List ℕ)
    → Begins k b x rest
    → (k ≤ readable_bytes b) × (peek_int k b ≡ some x)
peek_int_lem k b x rest h =
    let l = length-to_network k x in
    let n = length-append (to_network k x) rest in
    let le : k ≤ readable_bytes b =
      omega
        (arith, readable_bytes_lem b h.valid, length-content b h.valid, ap length h.bytes, l, n) in
    let e : take k (peek b) ≡ to_network k x =
      peek_lem b k h.valid le
      ∙ ap (take k) h.bytes
      ∙ take-append_le k (to_network k x) rest (omega (arith, l))
      ∙ take_all k (to_network k x) (omega (arith, l)) in
    (
      le,
      rw (assert_lem (leb k (readable_bytes b)) (le→leb k (readable_bytes b) le))
          (ap some (ap (to_host 0) e ∙ to_host-to_network k x h.small)),
    )

read_int_lem :
    (k : ℕ) (b : Buffer) (x : ℕ) (rest : List ℕ)
    → Begins k b x rest
    → (s : Buffer) × (read_int k b ≡ some (x, s)) × IsValid s × (content s ≡ rest)
read_int_lem k b x rest h =
    let (le, e) = peek_int_lem k b x rest h in
    let (s, q, t) = retrieve-Takes b k h.valid h.block le in
    (
      s,
      rw (e, q),
      t.valid,
      t.left
          ∙ ap (drop k) h.bytes
          ∙ ap (λ j. drop j (to_network k x ++ rest)) (sym (length-to_network k x))
          ∙ drop-append_length (to_network k x) rest,
    )

-- A number of `k` bytes that is written in front of the readable ones is read as it was, and reading
-- it leaves the bytes that were readable before.
read_int-prepend_int :
    (k : ℕ) (b : Buffer) (x : ℕ)
    → IsValid b
    → 8 ≤ length b.buffer
    → k ≤ b.reader_index
    → x < 256 ^ k
    → (r s : Buffer) × (prepend_int k b x ≡ some r)
      × (peek_int k r ≡ some x)
      × (read_int k r ≡ some (x, s))
      × (content s ≡ content b)
read_int-prepend_int k b x v room h small =
    let l = length-to_network k x in
    let (r, e, w, c, n) = prepend_lem b (to_network k x) k v h (omega (arith, l)) in
    let begins : Begins k r x (content b) = record {
      valid = w;
      block = omega (arith, n, room);
      bytes = c ∙ ap (λ xs. xs ++ content b) (take_all k (to_network k x) (omega (arith, l)));
      small = small;
    } in
    let (le, q) = peek_int_lem k r x (content b) begins in
    let (s, p, z, d) = read_int_lem k r x (content b) begins in (r, s, e, q, p, d)

-- The four widths, and the functions of each.
pub data Width : Type 0 where
  int64 : Width
  int32 : Width
  int16 : Width
  int8 : Width

abbrev pub size_of : Width → ℕ
size_of int64 = 8
size_of int32 = 4
size_of int16 = 2
size_of int8 = 1

abbrev pub prepend_of : Width → Buffer → ℕ → Option Buffer
prepend_of int64 = prepend_int64
prepend_of int32 = prepend_int32
prepend_of int16 = prepend_int16
prepend_of int8 = prepend_int8

abbrev pub peek_of : Width → Buffer → Option ℕ
peek_of int64 = peek_int64
peek_of int32 = peek_int32
peek_of int16 = peek_int16
peek_of int8 = peek_int8

abbrev pub read_of : Width → Buffer → Option (ℕ × Buffer)
read_of int64 = read_int64
read_of int32 = read_int32
read_of int16 = read_int16
read_of int8 = read_int8

-- For each width: a number that prependInt puts in front of the readable bytes, where the free space
-- holds it, is what peekInt and readInt then return, and readInt leaves the bytes that were readable
-- before. No assert fails.
pub read_of-prepend_of :
    (w : Width) (b : Buffer) (x : ℕ)
    → IsValid b
    → 8 ≤ length b.buffer
    → size_of w ≤ b.reader_index
    → x < 256 ^ size_of w
    → (r s : Buffer) × (prepend_of w b x ≡ some r)
      × (peek_of w r ≡ some x)
      × (read_of w r ≡ some (x, s))
      × (content s ≡ content b)
unfolding prepend_int64 prepend_int32 prepend_int16 prepend_int8 peek_int64 peek_int32 peek_int16
    peek_int8 read_int64 read_int32 read_int16 read_int8
read_of-prepend_of int64 b x = read_int-prepend_int 8 b x
read_of-prepend_of int32 b x = read_int-prepend_int 4 b x
read_of-prepend_of int16 b x = read_int-prepend_int 2 b x
read_of-prepend_of int8 b x = read_int-prepend_int 1 b x
