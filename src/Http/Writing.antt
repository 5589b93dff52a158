-- ===== src/Http/Writing.antt =====
-- How a response leaves HttpConn: Send, and OnWrite until the connection is closed.
use xx_chat.Base.{
  ℕ, ◌+◌, ◌-◌, ◌/◌, ◌^◌, ◌≤◌, ◌<◌, ◌≡◌, refl, sym, ap, ◌∙◌, subst, false, not, some, List, [], ◌∷◌,
  ◌++◌, length, take, drop, ltb, ◌==◌, arith, append-nil, append_assoc, length-drop,
  take-append-drop, take-take_le, take_all, if_cases, lt→ltb, ltb→lt,
}
use xx_chat.Pdu.SimpleBuffer
use xx_chat.Pdu.SimpleBuffer.{SimpleBuffer}
use xx_chat.Pdu.SimpleBuffer.Content.{
  content, IsValid, Fits, content-write, write_offset-write, write-IsValid,
}
use xx_chat.Pdu.SimpleBuffer.Reading.{Reads, read-Reads}
use xx_chat.Conn.{Answer, accepted}
use xx_chat.Http.Closing.{on_writes, Ends, send-Closing, continued-Closing, on_writes-Closing}
use xx_chat.Http.{
  HttpConn, Effect, puts, closes, State, Step, connected, closed, close, send, on_write,
  on_write_complete,
}

-- The bytes that go on the wire.
pub wired : List Effect → List ℕ
wired [] = []
wired (puts h xs ∷ es) = xs ++ wired es
wired (closes h ∷ es) = wired es

-- A connection in the middle of its response: `rest` is still to go out, and it is closed exactly when
-- nothing is left.
pub record Serves (rest : List ℕ) (c : HttpConn) : Type 0 where
  pub valid : IsValid c.out_buf
  pub waiting : content c.out_buf ≡ rest
  pub busy : c.busy ≡ ltb 0 c.out_buf.write_offset
  pub closes : (c.state == closed) ≡ not c.busy

accepted_le : (a : Answer) (n : ℕ) → accepted a n ≤ n
accepted_le Answer.refuse n = omega arith
accepted_le (Answer.room k) n = omega arith

-- A step that takes `rest` on.
record Goes (rest : List ℕ) (r : Step) : Type 0 where
  left : List ℕ
  order : wired r.2 ++ left ≡ rest
  serves : Serves left r.0

on_write-Goes :
    (rest : List ℕ) (c : HttpConn) (a : Answer) (s : State)
    → Serves rest c
    → Goes rest (on_write c a s)
unfolding on_write on_write_complete close wired
on_write-Goes rest c a s v =
    let size = c.out_buf.write_offset in
    let ret = accepted a size in
    let le : ret ≤ size = accepted_le a size in
    let r : Reads c.out_buf ret (SimpleBuffer.read c.out_buf ret) =
      read-Reads c.out_buf ret v.valid in
    let left = r.left ∙ ap (drop ret) v.waiting in
    let out : wired (puts c.sock_handle (take ret c.out_buf.buffer) ∷ []) ++ drop ret rest ≡ rest =
      ap (λ ys. ys ++ drop ret rest)
        (append-nil (take ret c.out_buf.buffer)
          ∙ sym (take-take_le ret size c.out_buf.buffer le)
          ∙ ap (take ret) v.waiting)
      ∙ take-append-drop ret rest in
    if_cases (Goes rest) (not c.busy) (λ _. record { left = rest; order = refl; serves = v })
      (λ on.
        if_cases (Goes rest) (ltb ret size)
          (λ more. record {
            left = drop ret rest;
            order = out;
            serves = record {
              valid = r.valid;
              waiting = left;
              busy = sym (lt→ltb 0 _ (omega (arith, r.offset, ltb→lt ret size more)));
              closes = v.closes ∙ on;
            };
          })
          (λ all. record {
            left = drop ret rest;
            order = out;
            serves = record {
              valid = r.valid;
              waiting = left;
              busy = ground (arith, r.offset, all);
              closes = refl;
            };
          }))

-- A connection whose request has not been answered.
pub record IsUnanswered (c : HttpConn) : Type 0 where
  pub valid : IsValid c.out_buf
  pub unused : c.out_buf.write_offset ≡ 0
  pub idle : c.busy ≡ false
  pub up : c.state ≡ connected

send-Goes :
    (c : HttpConn) (now : ℕ) (data_ : List ℕ) (a : Answer) (s : State)
    → IsUnanswered c
    → length data_ + length data_ / 4 < 2 ^ 32
    → Goes data_ (send c now data_ a s)
unfolding send on_write_complete close wired
send-Goes c now data_ a s v small =
    let len = length data_ in
    let ret = accepted a len in
    let nil : content c.out_buf ≡ [] = ap (λ k. take k c.out_buf.buffer) v.unused in
    let put = append-nil (take ret data_) in
    if_cases (Goes data_) c.busy (λ on. absurd (ground (arith, on, v.idle)))
      (λ _.
        if_cases (Goes data_) (ltb ret len)
          (λ more.
            let xs = drop ret data_ in
            let l : length xs ≡ len - ret = length-drop ret data_ in
            let f : Fits c.out_buf (len - ret) = omega (arith, v.unused, small) in
            let w = write_offset-write c.out_buf (some xs) (len - ret) v.valid f in
            record {
              left = xs;
              order = ap (λ ys. ys ++ xs) put ∙ take-append-drop ret data_;
              serves = record {
                valid = write-IsValid c.out_buf (some xs) (len - ret) v.valid f;
                waiting =
                    content-write c.out_buf (len - ret) xs v.valid f l ∙ ap (λ ys. ys ++ xs) nil;
                busy = sym (lt→ltb 0 _ (omega (arith, w, ltb→lt ret len more)));
                closes = ap (λ k. k == closed) v.up;
              };
            })
          (λ all. record {
            left = [];
            order = append-nil _ ∙ put ∙ take_all ret data_ (ground arith);
            serves = record {
              valid = v.valid;
              waiting = nil;
              busy = ground (arith, v.idle, v.unused);
              closes = ground (arith, v.idle);
            };
          }))

wired-append : (es fs : List Effect) → wired (es ++ fs) ≡ wired es ++ wired fs
unfolding wired
wired-append [] fs = refl
wired-append (puts h xs ∷ es) fs =
    ap (λ ys. xs ++ ys) (wired-append es fs) ∙ sym (append_assoc xs (wired es) (wired fs))
wired-append (closes h ∷ es) fs = wired-append es fs

on_writes-Goes :
    (rest : List ℕ) (c : HttpConn) (s : State) (answers : List Answer)
    → Serves rest c
    → Goes rest (on_writes c s answers)
unfolding on_writes wired
on_writes-Goes rest c s [] v = record { left = rest; order = refl; serves = v }
on_writes-Goes rest c s (a ∷ answers) v =
    let g = on_write-Goes rest c a s v in
    let (c', s', out) = on_write c a s in
    let m = on_writes-Goes g.left c' s' answers g.serves in
    let (c'', s'', more) = on_writes c' s' answers in
    record {
      left = m.left;
      order =
          ap (λ ys. ys ++ m.left) (wired-append out more)
          ∙ append_assoc (wired out) (wired more) m.left
          ∙ ap (λ ys. wired out ++ ys) m.order
          ∙ g.order;
      serves = m.serves;
    }

-- However the kernel splits the writes of a response, the bytes on the wire and then those that wait are
-- the response. The socket is closed exactly when none is left: never before the last byte is out, and
-- at once with it, once and with nothing after it; and exactly then the connection is in the state
-- closed. The request has not been answered before, and the response fits a buffer.
pub send-on_writes :
    (c : HttpConn) (now : ℕ) (data_ : List ℕ) (a : Answer) (s : State) (answers : List Answer)
    → IsUnanswered c
    → length data_ + length data_ / 4 < 2 ^ 32
    → let (c1, s1, first) = send c now data_ a s in
      let (c2, s2, more) = on_writes c1 s1 answers in
      (wired (first ++ more) ++ content c2.out_buf ≡ data_)
      × Ends c.sock_handle (ltb 0 c2.out_buf.write_offset) (first ++ more)
      × ((c2.state == closed) ≡ (c2.out_buf.write_offset == 0))
send-on_writes c now data_ a s answers v small =
    let g = send-Goes c now data_ a s v small in
    let (c1, s1, first) = send c now data_ a s in
    let m = on_writes-Goes g.left c1 s1 answers g.serves in
    let (c2, s2, more) = on_writes c1 s1 answers in
    let ends : Ends c.sock_handle c2.busy (first ++ more) =
      (continued-Closing c.sock_handle (c1, s1, first) answers (send-Closing c now data_ a s v.idle)
        (on_writes-Closing c1 s1 answers)).ends in
    (
      ap (λ ys. ys ++ content c2.out_buf) (wired-append first more)
          ∙ append_assoc (wired first) (wired more) (content c2.out_buf)
          ∙ ap (λ ys. wired first ++ (wired more ++ ys)) m.serves.waiting
          ∙ ap (λ ys. wired first ++ ys) m.order
          ∙ g.order,
      subst (λ left. Ends c.sock_handle left (first ++ more)) m.serves.busy ends,
      m.serves.closes ∙ ground (arith, m.serves.busy),
    )
