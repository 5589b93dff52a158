-- ===== src/Conn/Output.antt =====
-- The output side of ImConn: Send and OnWrite put the bytes on the wire in the order of the calls.
use xx_chat.Base.{
  ℕ, ◌+◌, ◌≤◌, ◌<◌, ◌≡◌, refl, sym, ap, ◌∙◌, true, false, inl, inr, some, List, [], ◌∷◌, ◌++◌,
  length, take, drop, ltb, ◌==◌, arith, append-nil, append_assoc, length-append, take-append-drop,
  Bool-cases, if_cases, take-take_le, ltb→lt, lt→ltb,
}
use xx_chat.Pdu.SimpleBuffer
use xx_chat.Pdu.SimpleBuffer.{SimpleBuffer}
use xx_chat.Pdu.SimpleBuffer.Content.{
  content, IsValid, Fits, content-write, write_offset-write, write-IsValid, empty-IsValid,
}
use xx_chat.Pdu.SimpleBuffer.Reading.{Reads, read-Reads}
use xx_chat.Conn.{
  ImConn, Answer, accepted, send_size, send_loop, send, Flushed, flush_loop, on_write, new_conn,
}

-- A call takes no more than it is offered.
accepted_le : (a : Answer) (n : ℕ) → accepted a (send_size n) ≤ n
accepted_le Answer.refuse n = omega arith
accepted_le (Answer.room k) n = ground arith

send_loop_lem :
    (answers : List Answer) (rest : List ℕ)
    → let s = send_loop answers rest in s.put ++ s.left ≡ rest
unfolding send_loop
send_loop_lem [] rest = refl
send_loop_lem (a ∷ later) rest =
    let ret = accepted a (send_size (length rest)) in
    let step : take ret rest
          ++ (send_loop later (drop ret rest)).put
          ++ (send_loop later (drop ret rest)).left
        ≡ rest =
      append_assoc (take ret rest) _ _
      ∙ ap (λ ys. take ret rest ++ ys) (send_loop_lem later (drop ret rest))
      ∙ take-append-drop ret rest in
    elim (Bool-cases (length rest == 0)) [
      | inl e ↦ rw (e, send_loop)
      | inr e ↦ elim (Bool-cases (ret == 0)) [
        | inl z ↦ rw (e, z, send_loop)
        | inr z ↦ rw (e, z, send_loop) step
      ]
    ]

-- What a loop of `OnWrite` leaves of a buffer.
record Drains (b : SimpleBuffer) (f : Flushed) : Type 0 where
  order : f.put ++ content f.buf ≡ content b
  valid : IsValid f.buf
  shrinks : f.buf.write_offset ≤ b.write_offset

flush_loop-Drains :
    (answers : List Answer) (b : SimpleBuffer) → IsValid b → Drains b (flush_loop answers b)
unfolding flush_loop
flush_loop-Drains [] b v = record { order = refl; valid = v; shrinks = omega arith }
flush_loop-Drains (a ∷ later) b v =
    let ret = accepted a (send_size b.write_offset) in
    let le : ret ≤ b.write_offset = accepted_le a b.write_offset in
    let r : Reads b ret (SimpleBuffer.read b ret) = read-Reads b ret v in
    let rest = (SimpleBuffer.read b ret).2 in
    let q : Drains rest (flush_loop later rest) = flush_loop-Drains later rest r.valid in
    let order : take ret b.buffer
          ++ (flush_loop later rest).put
          ++ content (flush_loop later rest).buf
        ≡ content b =
      append_assoc (take ret b.buffer) _ _
      ∙ ap (λ ys. take ret b.buffer ++ ys) (q.order ∙ r.left)
      ∙ ap (λ ys. ys ++ drop ret (content b)) (sym (take-take_le ret b.write_offset b.buffer le))
      ∙ take-append-drop ret (content b) in
    elim (Bool-cases (b.write_offset == 0)) [
      | inl e ↦ rw (e, flush_loop) (record { order = refl; valid = v; shrinks = omega arith })
      | inr e ↦ elim (Bool-cases (ret == 0)) [
        | inl z ↦ rw (e, z, flush_loop) (record { order = refl; valid = v; shrinks = omega arith })
        | inr z ↦
            rw (e, z, flush_loop)
              (record {
                order = order;
                valid = q.valid;
                shrinks = omega (arith, r.offset, q.shrinks);
              })
      ]
    ]

-- A connection is busy exactly while bytes wait in its output buffer.
pub record IsQueued (c : ImConn) : Type 0 where
  pub valid : IsValid c.out_buf
  pub waiting : c.busy ≡ ltb 0 c.out_buf.write_offset

pub idle : {c : ImConn} → IsQueued c → c.busy ≡ false → c.out_buf.write_offset ≡ 0
idle q e = ground (arith, q.waiting)

pending : {c : ImConn} → IsQueued c → c.busy ≡ true → 0 < c.out_buf.write_offset
pending q e = ground (arith, q.waiting)

pub new_conn-IsQueued : (handle now : ℕ) → IsQueued (new_conn handle now)
unfolding new_conn SimpleBuffer.empty
new_conn-IsQueued handle now = record {
  valid = unfold SimpleBuffer.empty in empty-IsValid;
  waiting = refl;
}

-- What a call does to the bytes: those that it puts on the wire and those that wait after it are
-- those that waited and the new ones, in this order.
pub record Keeps (c : ImConn) (new : List ℕ) (r : ImConn × List ℕ × List Answer) : Type 0 where
  pub order : r.1 ++ content r.0.out_buf ≡ content c.out_buf ++ new
  pub queued : IsQueued r.0
  pub bounded : r.0.out_buf.write_offset ≤ c.out_buf.write_offset + length new

nil_of_length : (xs : List ℕ) → length xs ≡ 0 → xs ≡ []
nil_of_length [] e = refl
nil_of_length (x ∷ xs) e = absurd (omega arith)

pub content_nil : (b : SimpleBuffer) → b.write_offset ≡ 0 → content b ≡ []
content_nil b e = ap (λ k. take k b.buffer) e

pub on_write-Keeps :
    (c : ImConn) (answers : List Answer) → IsQueued c → Keeps c [] (on_write c answers)
unfolding on_write
on_write-Keeps c answers q =
    let f = flush_loop answers c.out_buf in
    let d : Drains c.out_buf f = flush_loop-Drains answers c.out_buf q.valid in
    if_cases (Keeps c []) c.busy
      (λ e. record {
        order = rw append-nil d.order;
        queued = record { valid = d.valid; waiting = ground arith };
        bounded = omega (arith, d.shrinks);
      })
      (λ e. record { order = rw append-nil; queued = q; bounded = omega arith })

pub send-Keeps :
    (c : ImConn) (now : ℕ) (buf : List ℕ) (answers : List Answer)
    → IsQueued c
    → Fits c.out_buf (length buf)
    → Keeps c buf (send c now buf answers)
unfolding send
send-Keeps c now buf answers q g =
    let s = send_loop answers buf in
    let o : s.put ++ s.left ≡ buf = send_loop_lem answers buf in
    let l : length s.put + length s.left ≡ length buf =
      sym (length-append s.put s.left) ∙ ap length o in
    if_cases (Keeps c buf) c.busy
      (λ e.
        let w = c.out_buf in
        record {
          order = content-write w (length buf) buf q.valid g refl;
          queued = record {
            valid = write-IsValid w (some buf) (length buf) q.valid g;
            waiting =
                e
                ∙ sym (
                    lt→ltb 0 _ (
                      omega (
                        arith,
                        write_offset-write w (some buf) (length buf) q.valid g,
                        pending q e,
                      )));
          };
          bounded = omega (arith, write_offset-write w (some buf) (length buf) q.valid g);
        })
      (λ e.
        let z : c.out_buf.write_offset ≡ 0 = idle q e in
        let n : content c.out_buf ≡ [] = content_nil c.out_buf z in
        let f : Fits c.out_buf (length s.left) = omega (arith, z, l) in
        let w = write_offset-write c.out_buf (some s.left) (length s.left) q.valid f in
        if_cases (Keeps c buf) (ltb 0 (length s.left))
          (λ m. record {
            order =
                ap (λ ys. s.put ++ ys)
                  (content-write c.out_buf (length s.left) s.left q.valid f refl)
                ∙ ap (λ ys. s.put ++ (ys ++ s.left)) n
                ∙ o
                ∙ ap (λ ys. ys ++ buf) (sym n);
            queued = record {
              valid = write-IsValid c.out_buf (some s.left) (length s.left) q.valid f;
              waiting = sym (lt→ltb 0 _ (omega (arith, w, ltb→lt 0 (length s.left) m)));
            };
            bounded = omega (arith, w, l);
          })
          (λ m. record {
            order =
                ap (λ ys. s.put ++ ys) (n ∙ sym (nil_of_length s.left (ground arith)))
                ∙ o
                ∙ ap (λ ys. ys ++ buf) (sym n);
            queued = record { valid = q.valid; waiting = q.waiting };
            bounded = omega arith;
          }))
