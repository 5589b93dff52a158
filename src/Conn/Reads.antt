-- ===== src/Conn/Reads.antt =====
-- Any history of ImConn::OnRead on a connection handles the messages of the whole byte stream.
use xx_chat.Base.{
  ℕ, suc, ◌+◌, ◌≤◌, ◌≡◌, refl, sym, ap, ap₂, ◌∙◌, inl, inr, Option, some, none, List, [], ◌∷◌, ◌++◌,
  All, length, arith, append-nil, append_assoc, length-append, Option-cases,
}
use xx_chat.Pdu.SimpleBuffer.Content.{content, IsValid, length-content}
use xx_chat.Pdu.Exception.{PduException}
use xx_chat.Conn.{ImConn, Handler, recv_loop, on_read}
use xx_chat.Conn.Input.{Grows, Receives, received, recv_loop-Receives}
use xx_chat.Conn.Framing.{frames, frames_from, parse_loop-Agrees}
use xx_chat.Conn.Segments.{Cut, frames-Cut}

-- A call of `OnRead`: its time and the chunks that the kernel delivers during it.
abbrev pub Read : Type 0
Read = ℕ × List (List ℕ)

-- The bytes of all calls.
abbrev pub stream : List Read → List ℕ
stream [] = []
stream ((now, chunks) ∷ rs) = received chunks ++ stream rs

-- The kernel delivers at most `READ_BUF_SIZE` bytes at once.
abbrev pub Bounded : Read → Type 0
Bounded r = All (λ chunk. length chunk ≤ 2048) r.1

-- Without an exception the buffer holds the bytes behind the last message.
abbrev pub LeftOver : Option PduException → List ℕ → List ℕ → Type 0
LeftOver none xs ys = xs ≡ ys
LeftOver (some e) xs ys = Unit {0}

LeftOver-trans :
    (o : Option PduException) (xs ys zs : List ℕ) → LeftOver o xs ys → ys ≡ zs → LeftOver o xs zs
LeftOver-trans none xs ys zs p q = p ∙ q
LeftOver-trans (some e) xs ys zs p q = tt

module _ {S : Type 0} (handle : Handler S) where
  -- The calls of `OnRead` in order, up to an exception, which closes the connection.
  unfoldable pub run_reads : ImConn → List Read → S → ImConn × S × Option PduException
  run_reads c [] s = (c, s, none)
  run_reads c ((now, chunks) ∷ rs) s =
      let (c', s', thrown) = on_read handle c now chunks s in
      elim thrown [ some e ↦ (c', s', some e) | none ↦ run_reads c' rs s' ]

  -- What one call leaves: the handler's state, its buffer and its exception are those of the frames
  -- of all bytes that are there.
  record Reading (c : ImConn) (chunks : List (List ℕ)) (s : S)
      (r : ImConn × S × Option PduException) : Type 0 where
    state : r.1 ≡ (frames handle (content c.in_buf ++ received chunks) s).0
    left : content r.0.in_buf ≡ (frames handle (content c.in_buf ++ received chunks) s).1
    exception : r.2 ≡ (frames handle (content c.in_buf ++ received chunks) s).2
    valid : IsValid r.0.in_buf

  on_read-Reading :
      (c : ImConn) (now : ℕ) (chunks : List (List ℕ)) (s : S)
      → IsValid c.in_buf
      → Grows (c.in_buf.write_offset + length (received chunks) + 2048)
      → All (λ chunk. length chunk ≤ 2048) chunks
      → Reading c chunks s (on_read handle c now chunks s)
  unfolding on_read frames
  on_read-Reading c now chunks s v g h =
      let d = recv_loop c now chunks in
      let r : Receives c (received chunks) d = recv_loop-Receives c now chunks v g h in
      let a =
        parse_loop-Agrees handle (suc d.in_buf.write_offset) d.in_buf s r.valid
          (omega (arith, r.offset)) in
      let e : frames_from handle (suc d.in_buf.write_offset) (content d.in_buf) s
          ≡ frames handle (content c.in_buf ++ received chunks) s =
        ap (λ k. frames_from handle (suc k) (content d.in_buf) s)
          (sym (length-content d.in_buf r.valid))
        ∙ ap (λ xs. frames handle xs s) r.bytes in
      record {
        state = a.0 ∙ ap (λ f. f.0) e;
        left = a.1 ∙ ap (λ f. f.1) e;
        exception = a.2 ∙ ap (λ f. f.2) e;
        valid = a.3;
      }

  -- What a history of calls leaves: the state and the exception of the frames of the whole stream
  -- and, without an exception, the bytes behind the last message.
  abbrev pub Handles : List ℕ → S → ImConn × S × Option PduException → Type 0
  Handles bytes s r =
      (r.1 ≡ (frames handle bytes s).0)
      × (r.2 ≡ (frames handle bytes s).2)
      × LeftOver r.2 (content r.0.in_buf) (frames handle bytes s).1

  -- However the bytes are cut into reads and into calls of OnRead, the messages that are handled,
  -- their order and the exception, if any, are those of reading the whole stream at once; without an
  -- exception so is the incomplete rest in the buffer. The connection may hold an incomplete
  -- message to begin with, and the bytes must be few enough for a buffer.
  pub run_reads-Handles :
      (c : ImConn) (rs : List Read) (s : S)
      → IsValid c.in_buf
      → frames handle (content c.in_buf) s ≡ (s, content c.in_buf, none)
      → Grows (c.in_buf.write_offset + length (stream rs) + 2048)
      → All Bounded rs
      → Handles (content c.in_buf ++ stream rs) s (run_reads c rs s)
  unfolding run_reads
  run_reads-Handles c [] s v settled g h =
      rw (append-nil (content c.in_buf), settled) (refl, refl, refl)
  run_reads-Handles c ((now, chunks) ∷ rs) s v settled g h =
      let xs = content c.in_buf ++ received chunks in
      let l = length-append (received chunks) (stream rs) in
      let k : length xs ≡ c.in_buf.write_offset + length (received chunks) =
        omega
          (arith, length-append (content c.in_buf) (received chunks), length-content c.in_buf v) in
      let k' = length-append xs (stream rs) in
      let x = on_read handle c now chunks s in
      let r : Reading c chunks s x = on_read-Reading c now chunks s v (omega (arith, l)) h.0 in
      let cut : Cut handle xs s (frames handle xs s) =
        unfold frames in
        frames-Cut handle (suc (length xs)) xs s (omega (arith, k, l)) (omega arith) in
      let grows : Grows (length (xs ++ stream rs)) = omega (arith, k, k', l) in
      rw (← append_assoc (content c.in_buf) (received chunks) (stream rs))
        (elim (Option-cases x.2) [
          | inr (e, loud) ↦
              let t = cut.thrown e (sym r.exception ∙ loud) (stream rs) grows in
              rw (loud, run_reads) (r.state ∙ sym t.0, sym t.1, tt)
          | inl calm ↦
              let e = sym r.exception ∙ calm in
              let size : x.0.in_buf.write_offset ≤ length xs =
                omega (arith, length-content x.0.in_buf r.valid, ap length r.left, cut.shorter) in
              let ih =
                run_reads-Handles x.0 rs x.1 r.valid (rw (r.left, r.state) (cut.settled e))
                  (omega (arith, size, k, l)) h.1 in
              let f : frames handle (content x.0.in_buf ++ stream rs) x.1
                  ≡ frames handle (xs ++ stream rs) s =
                ap₂ (λ zs t. frames handle (zs ++ stream rs) t) r.left r.state
                ∙ sym (cut.quiet e (stream rs) grows) in
              rw (calm, run_reads)
                (
                  ih.0 ∙ ap (λ f. f.0) f,
                  ih.1 ∙ ap (λ f. f.2) f,
                  LeftOver-trans (run_reads x.0 rs x.1).2 _ _ _ ih.2 (ap (λ f. f.1) f),
                )
        ])
