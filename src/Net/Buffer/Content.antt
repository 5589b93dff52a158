-- ===== src/Net/Buffer/Content.antt =====
-- The readable bytes of a Buffer, and the functions that append to them.
use xx_chat.Base.{
  ℕ, ◌+◌, ◌-◌, ◌^◌, ◌≤◌, ◌<◌, ◌≡◌, refl, sym, ap, ◌∙◌, inl, inr, some, List, ◌++◌, length, take,
  drop, replicate, write_at, ltb, leb, arith, length-append, length-take, length-drop,
  length-replicate, length-write_at, take-write_at, take-append_le, drop-append_le,
  drop-append_length, take-take_le, take-drop, Bool-cases, lt→ltb, le→leb, ==_iff,
}
use xx_chat.Base.Options.{assert_lem}
use xx_chat.Net.Buffer.{
  Buffer, add_size, resize, readable_bytes, writable_bytes, prependable_bytes, has_written, moved,
  make_space, ensure_writable_bytes, append, begin_write,
}

abbrev pub content : Buffer → List ℕ
content b = drop b.reader_index (take b.writer_index b.buffer)

-- The indices are in order, and the block is far from the end of the address space.
pub record IsValid (b : Buffer) : Type 0 where
  pub reader_in : b.reader_index ≤ b.writer_index
  pub writer_in : b.writer_index ≤ length b.buffer
  pub small : length b.buffer < 2 ^ 62

pub length-content : (b : Buffer) → IsValid b → length (content b) ≡ b.writer_index - b.reader_index
length-content b v = omega (
  arith,
  length-drop b.reader_index (take b.writer_index b.buffer),
  length-take b.writer_index b.buffer,
  v,
)

pub readable_bytes_lem :
    (b : Buffer) → IsValid b → readable_bytes b ≡ b.writer_index - b.reader_index
unfolding readable_bytes
readable_bytes_lem b v = omega (arith, v)

pub writable_bytes_lem :
    (b : Buffer) → IsValid b → writable_bytes b ≡ length b.buffer - b.writer_index
unfolding writable_bytes
writable_bytes_lem b v = omega (arith, v)

-- The readable bytes are those from `peek` on.
pub content_lem :
    (b : Buffer)
    → IsValid b
    → take (b.writer_index - b.reader_index) (drop b.reader_index b.buffer) ≡ content b
content_lem b v =
    take-drop (b.writer_index - b.reader_index) b.reader_index b.buffer
    ∙ ap (λ k. drop b.reader_index (take k b.buffer)) (omega (arith, v))

-- A buffer with the readable bytes of `b` that has `len` writable ones.
pub record HasRoom (b : Buffer) (len : ℕ) (r : Buffer) : Type 0 where
  pub valid : IsValid r
  pub same : content r ≡ content b
  pub room : r.writer_index + len ≤ length r.buffer
  pub grows : length b.buffer ≤ length r.buffer

length-resize : (xs : List ℕ) (n : ℕ) → length (resize xs n) ≡ n
length-resize xs n = omega (
  arith,
  length-append (take n xs) (replicate (n - length xs) 0),
  length-take n xs,
  length-replicate {A = ℕ} (n - length xs) 0,
)

take-resize : (xs : List ℕ) (m n : ℕ) → m ≤ length xs → m ≤ n → take m (resize xs n) ≡ take m xs
take-resize xs m n h k =
    take-append_le m (take n xs) (replicate (n - length xs) 0) (omega (arith, length-take n xs))
    ∙ take-take_le m n xs k

-- Both branches of `makeSpace` make room for `len` bytes, and its asserts hold.
pub make_space-HasRoom :
    (b : Buffer) (len : ℕ)
    → IsValid b
    → length b.buffer + len < 2 ^ 62
    → length b.buffer < b.writer_index + len
    → (r : Buffer) × (make_space b len ≡ some r) × HasRoom b len r
unfolding make_space prependable_bytes
make_space-HasRoom b len v g short =
    let w = writable_bytes_lem b v in
    let n = readable_bytes_lem b v in
    elim (Bool-cases (ltb (add_size (writable_bytes b) (prependable_bytes b)) (add_size len 8))) [
      | inl grow ↦
          let size : add_size b.writer_index len ≡ b.writer_index + len = omega (arith, v) in
          let l = length-resize b.buffer (add_size b.writer_index len) in
          (
            record b { buffer = resize b.buffer (add_size b.writer_index len) },
            rw grow,
            record {
              valid = omega (arith, v, l, size);
              same =
                  ap (drop b.reader_index) (
                    take-resize b.buffer b.writer_index _ (omega (arith, v)) (omega (arith, size)));
              room = omega (arith, l, size);
              grows = omega (arith, l, size, short);
            },
          )
      | inr keep ↦
          let far : 8 < b.reader_index = ground (arith, w, v) in
          let enough : len + 8 ≤ length b.buffer - b.writer_index + b.reader_index =
            ground (arith, w, v) in
          let xs = take (b.writer_index - b.reader_index) (drop b.reader_index b.buffer) in
          let c : xs ≡ content b = content_lem b v in
          let l : length xs ≡ b.writer_index - b.reader_index = ap length c ∙ length-content b v in
          let l' = length-write_at b.buffer 8 xs in
          let o : (moved b).writer_index ≡ 8 + length xs = omega (arith, n, l, v) in
          let valid : IsValid (moved b) = omega (arith, v, l', o, l) in
          let n' = readable_bytes_lem (moved b) valid in
          (
            moved b,
            rw (
              keep,
              lt→ltb 8 b.reader_index far,
              (==_iff (readable_bytes b) (readable_bytes (moved b))).1 (omega (arith, n, n', o, l)),
            ),
            record {
              valid = valid;
              same =
                  ap (λ k. drop 8 (take k (write_at b.buffer 8 xs))) o
                  ∙ ap (drop 8)
                      (take-write_at b.buffer 8 xs (8 + length xs) refl (omega (arith, v, l)))
                  ∙ ap (λ k. drop k (take 8 b.buffer ++ xs)) {x = 8}
                      (omega (arith, length-take 8 b.buffer, v))
                  ∙ drop-append_length (take 8 b.buffer) xs
                  ∙ c;
              room = omega (arith, enough, o, l, l', v);
              grows = omega (arith, l', l, v);
            },
          )
    ]

pub ensure_writable_bytes-HasRoom :
    (b : Buffer) (len : ℕ)
    → IsValid b
    → length b.buffer + len < 2 ^ 62
    → (r : Buffer) × (ensure_writable_bytes b len ≡ some r) × HasRoom b len r
unfolding ensure_writable_bytes
ensure_writable_bytes-HasRoom b len v g =
    let w = writable_bytes_lem b v in
    elim (Bool-cases (ltb (writable_bytes b) len)) [
      | inl short ↦
          let (r, e, h) = make_space-HasRoom b len v g (ground (arith, w, v)) in
          let w' = writable_bytes_lem r h.valid in
          (
            r,
            rw (
              short,
              e,
              assert_lem (leb len (writable_bytes r))
                  (le→leb len (writable_bytes r) (omega (arith, w', h))),
            ),
            h,
          )
      | inr enough ↦
          let le : len ≤ writable_bytes b = ground arith in
          (
            b,
            rw (enough, assert_lem (leb len (writable_bytes b)) (le→leb len (writable_bytes b) le)),
            record { valid = v; same = refl; room = omega (arith, le, w, v); grows = omega arith },
          )
    ]

-- What appending `new` makes of a buffer.
pub record Appends (b : Buffer) (new : List ℕ) (r : Buffer) : Type 0 where
  pub valid : IsValid r
  pub bytes : content r ≡ content b ++ new
  pub grows : length b.buffer ≤ length r.buffer

-- The bytes are written behind the readable ones and become readable.
pub written-Appends :
    (b r : Buffer) (xs : List ℕ)
    → HasRoom b (length xs) r
    → Appends b xs (record r {
      buffer = write_at r.buffer r.writer_index xs;
      writer_index = add_size r.writer_index (length xs);
    })
written-Appends b r xs h =
    let l' = length-write_at r.buffer r.writer_index xs in
    let o : add_size r.writer_index (length xs) ≡ r.writer_index + length xs =
      omega (arith, h.valid, h.room) in
    record {
      valid = omega (arith, h.valid, h.room, l', o);
      bytes =
          ap (drop r.reader_index)
            (take-write_at r.buffer r.writer_index xs _ o (omega (arith, o, h.room)))
          ∙ drop-append_le r.reader_index (take r.writer_index r.buffer) xs
              (omega (arith, length-take r.writer_index r.buffer, h.valid))
          ∙ ap (λ ys. ys ++ xs) h.same;
      grows = omega (arith, l', h.grows, h.room);
    }

append_room :
    (b r : Buffer) (bytes : List ℕ) (len : ℕ)
    → HasRoom b len r
    → len ≤ length bytes
    → (q : Buffer) × (has_written
          (record r { buffer = write_at r.buffer (begin_write r) (take len bytes) })
          len
        ≡ some q)
      × Appends b (take len bytes) q
unfolding has_written begin_write
append_room b r bytes len h k =
    let xs = take len bytes in
    let l : length xs ≡ len = omega (arith, length-take len bytes) in
    let l' = length-write_at r.buffer r.writer_index xs in
    let written : Buffer = record r { buffer = write_at r.buffer r.writer_index xs } in
    let w = writable_bytes_lem written (omega (arith, h.valid, l')) in
    (
      record written { writer_index = add_size r.writer_index (length xs) },
      rw
          (assert_lem (leb len (writable_bytes written))
            (le→leb len (writable_bytes written) (omega (arith, w, l', h.room))))
          (ap (λ k. some (record written { writer_index = add_size r.writer_index k })) (sym l)),
      written-Appends b r xs (record {
        valid = h.valid;
        same = h.same;
        room = omega (arith, l, h.room);
        grows = h.grows;
      }),
    )

-- On a valid buffer of a realistic size no assert of append fails, whether it writes in place, moves
-- the readable bytes to the front or grows the block; the readable bytes are then those from before
-- followed by the first `len` bytes of the argument, and the buffer is valid.
pub append-Appends :
    (b : Buffer) (bytes : List ℕ) (len : ℕ)
    → IsValid b
    → length b.buffer + len < 2 ^ 62
    → len ≤ length bytes
    → (r : Buffer) × (append b bytes len ≡ some r) × Appends b (take len bytes) r
unfolding append
append-Appends b bytes len v g k =
    let (r, e, h) = ensure_writable_bytes-HasRoom b len v g in
    let (q, e', a) = append_room b r bytes len h k in (q, rw (e, e'), a)
