-- ===== src/Net/Buffer/Reading.antt =====
-- The functions of Buffer that take bytes from its front or put bytes in front of them, and
-- readFd and shrink.
use xx_chat.Base.{
  ℕ, ◌+◌, ◌-◌, ◌^◌, ◌≤◌, ◌<◌, ◌≡◌, refl, sym, ap, ◌∙◌, inl, inr, some, List, ◌++◌, length, take,
  drop, write_at, ltb, leb, if◌then◌else◌, arith, length-take, length-drop, length-write_at,
  take-take_le, take_all, drop_all, drop-drop, drop-take-write_at, subst, take-append-drop,
  Bool-cases, if_cases, le→leb, append_assoc,
}
use xx_chat.Base.Options.{assert_lem}
use xx_chat.Net.Buffer.{
  Buffer, add_size, sub_size, readable_bytes, writable_bytes, prependable_bytes, peek, retrieve,
  retrieve_all, retrieve_as_string, prepend, append, read_fd,
}
use xx_chat.Net.Buffer.Content.{
  content, IsValid, length-content, readable_bytes_lem, writable_bytes_lem, content_lem, Appends,
  append-Appends, written-Appends,
}

-- What taking `len` bytes leaves.
pub record Takes (b : Buffer) (len : ℕ) (r : Buffer) : Type 0 where
  pub valid : IsValid r
  pub left : content r ≡ drop len (content b)
  pub kept : length r.buffer ≡ length b.buffer

retrieved : Buffer → ℕ → Buffer
retrieved b len =
    if ltb len (readable_bytes b)
    then record b { reader_index = add_size b.reader_index len }
    else retrieve_all b

retrieved-Takes :
    (b : Buffer) (len : ℕ)
    → IsValid b
    → 8 ≤ length b.buffer
    → len ≤ readable_bytes b
    → Takes b len (retrieved b len)
unfolding retrieved retrieve_all
retrieved-Takes b len v room h =
    let n = readable_bytes_lem b v in
    if_cases (Takes b len) (ltb len (readable_bytes b))
      (λ some_left.
        let o : add_size b.reader_index len ≡ b.reader_index + len = ground (arith, n, v) in
        record {
          valid = ground (arith, n, v, o);
          left =
              ap (λ k. drop k (take b.writer_index b.buffer)) o
              ∙ sym (drop-drop len b.reader_index (take b.writer_index b.buffer));
          kept = refl;
        })
      (λ all. record {
        valid = omega (arith, v);
        left =
            drop_all 8 (take 8 b.buffer) (omega (arith, length-take 8 b.buffer))
            ∙ sym (drop_all len (content b) (ground (arith, n, length-content b v)));
        kept = refl;
      })

pub retrieve-Takes :
    (b : Buffer) (len : ℕ)
    → IsValid b
    → 8 ≤ length b.buffer
    → len ≤ readable_bytes b
    → (r : Buffer) × (retrieve b len ≡ some r) × Takes b len r
unfolding retrieve retrieved
retrieve-Takes b len v room h = (
  retrieved b len,
  rw (assert_lem (leb len (readable_bytes b)) (le→leb len (readable_bytes b) h)),
  retrieved-Takes b len v room h,
)

pub peek_lem :
    (b : Buffer) (len : ℕ)
    → IsValid b
    → len ≤ readable_bytes b
    → take len (peek b) ≡ take len (content b)
unfolding peek
peek_lem b len v h =
    let n = readable_bytes_lem b v in
    sym (
      take-take_le len (b.writer_index - b.reader_index) (drop b.reader_index b.buffer)
        (omega (arith, n)))
    ∙ ap (take len) (content_lem b v)

-- For at most as many bytes as are readable, retrieveAsString returns the oldest ones and leaves
-- exactly the others, also where it resets the indices; no assert fails.
pub retrieve_as_string-Takes :
    (b : Buffer) (len : ℕ)
    → IsValid b
    → 8 ≤ length b.buffer
    → len ≤ readable_bytes b
    → (r : Buffer) × (retrieve_as_string b len ≡ some (take len (content b), r)) × Takes b len r
unfolding retrieve_as_string
retrieve_as_string-Takes b len v room h =
    let (r, e, t) = retrieve-Takes b len v room h in
    (
      r,
      rw (assert_lem (leb len (readable_bytes b)) (le→leb len (readable_bytes b) h), e)
          (ap (λ xs. some (xs, r)) (peek_lem b len v h)),
      t,
    )

-- prepend puts the first `len` bytes of its argument in front of the readable ones, if the free
-- space there holds them. The block keeps its size.
pub prepend_lem :
    (b : Buffer) (bytes : List ℕ) (len : ℕ)
    → IsValid b
    → len ≤ b.reader_index
    → len ≤ length bytes
    → (r : Buffer) × (prepend b bytes len ≡ some r)
      × IsValid r
      × (content r ≡ take len bytes ++ content b)
      × (length r.buffer ≡ length b.buffer)
unfolding prepend prependable_bytes
prepend_lem b bytes len v h k =
    let xs = take len bytes in
    let l : length xs ≡ len = omega (arith, length-take len bytes) in
    let o : sub_size b.reader_index len ≡ b.reader_index - len = omega (arith, v) in
    (
      record b {
        buffer = write_at b.buffer (sub_size b.reader_index len) xs;
        reader_index = sub_size b.reader_index len;
      },
      rw (assert_lem (leb len b.reader_index) (le→leb len b.reader_index h)),
      omega (arith, v, o, length-write_at b.buffer (sub_size b.reader_index len) xs),
      drop-take-write_at b.buffer (sub_size b.reader_index len) xs b.reader_index b.writer_index
          (omega (arith, o, l)) (omega (arith, v)) (omega (arith, v)),
      omega (arith, v, o, length-write_at b.buffer (sub_size b.reader_index len) xs, l),
    )

-- readFd appends what the kernel delivers, in the block and from the extra array. The kernel
-- delivers at most 65536 bytes more than are writable.
pub read_fd-Appends :
    (b : Buffer) (bytes : List ℕ)
    → IsValid b
    → length b.buffer + length bytes < 2 ^ 62
    → (r : Buffer) × (read_fd b (some bytes) ≡ some r) × Appends b bytes r
unfolding read_fd
read_fd-Appends b bytes v g =
    let w = writable_bytes_lem b v in
    let room = writable_bytes b in
    elim (Bool-cases (leb (length bytes) room)) [
      | inl fits ↦
          let le : length bytes ≤ length b.buffer - b.writer_index = ground (arith, w) in
          (
            record b {
              buffer = write_at b.buffer b.writer_index bytes;
              writer_index = add_size b.writer_index (length bytes);
            },
            rw (fits, take_all room bytes (omega (arith, le, w))),
            written-Appends b b bytes (record {
              valid = v;
              same = refl;
              room = omega (arith, le, v);
              grows = omega arith;
            }),
          )
      | inr more ↦
          let first = take room bytes in
          let lt : length b.buffer - b.writer_index < length bytes = ground (arith, w) in
          let l : length first ≡ length b.buffer - b.writer_index =
            omega (arith, length-take room bytes, w, lt) in
          let o : add_size b.writer_index (length first) ≡ length b.buffer = omega (arith, l, v) in
          let full : Buffer = record b {
            buffer = write_at b.buffer b.writer_index first;
            writer_index = length b.buffer;
          } in
          let a : Appends b first full =
            subst
              (λ k.
                Appends b first
                  (record b { buffer = write_at b.buffer b.writer_index first; writer_index = k }))
              o
              (written-Appends b b first (record {
                valid = v;
                same = refl;
                room = omega (arith, l, v);
                grows = omega arith;
              })) in
          let d = length-drop room bytes in
          let n : sub_size (length bytes) room ≡ length (drop room bytes) =
            omega (arith, d, w, lt, g) in
          let (r, e, q) =
            append-Appends full (drop room bytes) (length (drop room bytes)) a.valid
              (omega (arith, length-write_at b.buffer b.writer_index first, d, w, lt, g, v))
              (omega arith) in
          (
            r,
            rw more (ap (append full (drop room bytes)) n ∙ e),
            record {
              valid = q.valid;
              bytes =
                  q.bytes
                  ∙ ap (λ ys. content full ++ ys) (take_all _ (drop room bytes) (omega arith))
                  ∙ ap (λ ys. ys ++ drop room bytes) a.bytes
                  ∙ append_assoc (content b) first (drop room bytes)
                  ∙ ap (λ ys. content b ++ ys) (take-append-drop room bytes);
              grows = omega (arith, q.grows, length-write_at b.buffer b.writer_index first, l, v);
            },
          )
    ]
