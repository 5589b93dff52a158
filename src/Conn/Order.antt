-- ===== src/Conn/Order.antt =====
-- Any history of ImConn::Send and ImConn::OnWrite on a connection.
use xx_chat.Base.{
  ℕ, ◌+◌, ◌/◌, ◌^◌, ◌<◌, ◌≡◌, refl, sym, ap, ◌∙◌, false, List, [], ◌∷◌, ◌++◌, length, arith,
  append-nil, append_assoc, length-append,
}
use xx_chat.Pdu.SimpleBuffer
use xx_chat.Pdu.SimpleBuffer.Content.{content}
use xx_chat.Conn.{ImConn, Answer, send, on_write, new_conn}
use xx_chat.Conn.Output.{IsQueued, send-Keeps, on_write-Keeps, new_conn-IsQueued, content_nil, idle}

-- A call on the connection, with the kernel's answers during it.
pub data Call : Type 0 where
  sends : ℕ → List ℕ → List Answer → Call
  writable : List Answer → Call

unfoldable pub step : ImConn → Call → ImConn × List ℕ
step c (sends now buf answers) = let (c', put, _) = send c now buf answers in (c', put)
step c (writable answers) = let (c', put, _) = on_write c answers in (c', put)

-- The connection after the calls, and all bytes that went on the wire.
unfoldable pub run : ImConn → List Call → ImConn × List ℕ
run c [] = (c, [])
run c (e ∷ es) = let (c', put) = step c e in let (c'', more) = run c' es in (c'', put ++ more)

-- The bytes that the calls were given to send.
abbrev pub given : List Call → List ℕ
given [] = []
given (sends now buf answers ∷ es) = buf ++ given es
given (writable answers ∷ es) = given es

-- A buffer that holds this many bytes can be grown.
abbrev pub Grows : ℕ → Type 0
Grows n = n + n / 4 < 2 ^ 32

-- However the kernel splits and delays the writes, the bytes on the wire and then those that wait in
-- the output buffer are the bytes of all calls of Send in the order of the calls, none lost and none
-- twice, and the connection is still busy exactly while bytes wait. The bytes together must be few
-- enough for a buffer.
pub run_order :
    (c : ImConn) (es : List Call)
    → IsQueued c
    → Grows (c.out_buf.write_offset + length (given es))
    → let (c', wire) = run c es in
      (wire ++ content c'.out_buf ≡ content c.out_buf ++ given es) × IsQueued c'
unfolding run step
run_order c [] q g = (sym (append-nil (content c.out_buf)), q)
run_order c (sends now buf answers ∷ es) q g =
    let l = length-append buf (given es) in
    let k = send-Keeps c now buf answers q (omega (arith, l)) in
    let (c', put, later) = send c now buf answers in
    let r = run_order c' es k.queued (omega (arith, l, k.bounded)) in
    (
      append_assoc put _ _
          ∙ ap (λ ys. put ++ ys) r.0
          ∙ sym (append_assoc put _ (given es))
          ∙ ap (λ ys. ys ++ given es) k.order
          ∙ append_assoc (content c.out_buf) buf (given es),
      r.1,
    )
run_order c (writable answers ∷ es) q g =
    let k = on_write-Keeps c answers q in
    let (c', put, later) = on_write c answers in
    let r = run_order c' es k.queued (omega (arith, k.bounded)) in
    (
      append_assoc put _ _
          ∙ ap (λ ys. put ++ ys) r.0
          ∙ sym (append_assoc put _ (given es))
          ∙ ap (λ ys. ys ++ given es) (k.order ∙ append-nil (content c.out_buf)),
      r.1,
    )

-- From a new connection: whenever it is not busy after a history of calls, exactly the bytes of
-- the calls of Send, in order, are on the wire.
pub run_complete :
    (handle now : ℕ) (es : List Call)
    → Grows (length (given es))
    → (run (new_conn handle now) es).0.busy ≡ false
    → (run (new_conn handle now) es).1 ≡ given es
unfolding new_conn SimpleBuffer.empty
run_complete handle now es g e =
    let c = new_conn handle now in
    let r = run_order c es (new_conn-IsQueued handle now) (omega arith) in
    let waiting : content (run c es).0.out_buf ≡ [] =
      content_nil (run c es).0.out_buf (idle r.1 e) in
    sym (append-nil (run c es).1)
    ∙ ap (λ ys. (run c es).1 ++ ys) (sym waiting)
    ∙ r.0
    ∙ ap (λ ys. ys ++ given es) (content_nil c.out_buf refl)
