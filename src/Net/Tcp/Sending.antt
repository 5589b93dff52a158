-- ===== src/Net/Tcp/Sending.antt =====
-- TcpConnection::sendInLoop.
use xx_chat.Base.{
  ℕ, ◌+◌, ◌^◌, ◌≤◌, ◌<◌, ◌≡◌, refl, sym, ap, ◌∙◌, inl, inr, true, false, not, ◌&&◌, some, List, [],
  ◌++◌, length, take, drop, ltb, leb, ◌==◌, if◌then◌else◌, arith, length-drop, take_all,
  take-append-drop, append-nil, append_assoc, if_cases, le→leb, lt→ltb, Bool-cases, subst, ap₂,
  length-append,
}
use xx_chat.Base.Options.{assert_lem}
use xx_chat.Net.Buffer.{readable_bytes}
use xx_chat.Net.Buffer.Content.{
  content, IsValid, length-content, readable_bytes_lem, Appends, append-Appends,
}
use xx_chat.Net.Channel.{Channel, is_writing, enable_writing}
use xx_chat.Net.Tcp.{
  TcpConnection, disconnected, code, is, note, Effect, queue_high_water_mark, Written, Attempt,
  attempt, keep, send_in_loop,
}
use xx_chat.Net.Tcp.Buffering.{IsBuffering, Same, sent, Same-IsBuffering}
use xx_chat.Net.Tcp.Faults.{accepted, closed_lem, fault_lem}
use xx_chat.Net.Tcp.Attempts.{Answers, Tries, attempt-Tries}

-- What sendInLoop makes of the connection when it takes `new` over.
pub record Sends (c : TcpConnection) (new : List ℕ) (r : TcpConnection) : Type 0 where
  pub buffering : IsBuffering r
  pub order : r.wire ++ content r.output ≡ (c.wire ++ content c.output) ++ new
  pub state : r.state ≡ c.state

-- The bytes that did not go out at once wait.
record Waits (c : TcpConnection) (new : List ℕ) (r : TcpConnection) : Type 0 where
  appends : Appends c.output new r.output
  on : is_writing r.channel ≡ true
  state : r.state ≡ c.state
  wire : r.wire ≡ c.wire

switched_on : (ch : Channel) → is_writing (if is_writing ch then ch else enable_writing ch) ≡ true
switched_on ch =
    if_cases (λ (r : Channel). is_writing r ≡ true) (is_writing ch) (λ on. on) (λ _. refl)

keep-Waits :
    (c : TcpConnection) (xs : List ℕ) (from remaining : ℕ)
    → IsValid c.output
    → length c.output.buffer + remaining < 2 ^ 62
    → from + remaining ≡ length xs
    → (r : TcpConnection) × (keep c xs from remaining ≡ some r) × Waits c (drop from xs) r
unfolding keep
keep-Waits c xs from remaining v g total =
    let l : length (drop from xs) ≡ remaining = omega (arith, length-drop from xs, total) in
    let (q, e, a) = append-Appends c.output (drop from xs) remaining v g (omega (arith, l)) in
    let a' =
      subst (λ ys. Appends c.output ys q) (take_all remaining (drop from xs) (omega (arith, l)))
        a in
    let old = readable_bytes c.output in
    let above = leb c.high_water_mark (old + remaining) && ltb old c.high_water_mark in
    let c' : TcpConnection = record c {
      output = q;
      channel = if is_writing c.channel then c.channel else enable_writing c.channel;
    } in
    let late : Effect = queue_high_water_mark (old + remaining) in
    let on = switched_on c.channel in
    (
      if above && c.has_high_water_mark then note c' late else c',
      rw e,
      if_cases (Waits c (drop from xs)) (above && c.has_high_water_mark)
          (λ _. record { appends = a'; on = on; state = refl; wire = refl })
          (λ _. record { appends = a'; on = on; state = refl; wire = refl }),
    )

-- sendInLoop is done after the attempt: `ys` went out, or nothing at a fault.
done-Sends :
    (c r : TcpConnection) (ys : List ℕ)
    → IsBuffering c
    → Same (sent c ys) r
    → ys ++ content c.output ≡ content c.output ++ ys
    → Sends c ys r
done-Sends c r ys b s o = record {
  buffering =
      Same-IsBuffering (sent c ys) r s (record { valid = b.valid; big = b.big; busy = b.busy });
  order =
      ap₂ (λ put out. put ++ content out) s.wire s.output
      ∙ append_assoc c.wire ys (content c.output)
      ∙ ap (λ zs. c.wire ++ zs) o
      ∙ sym (append_assoc c.wire (content c.output) ys);
  state = s.state;
}

-- Lists that commute change places inside a longer one.
regroup : (xs t c d : List ℕ) → t ++ c ≡ c ++ t → (xs ++ t) ++ (c ++ d) ≡ (xs ++ c) ++ (t ++ d)
regroup xs t c d o =
    append_assoc xs t (c ++ d)
    ∙ ap (λ ys. xs ++ ys) (sym (append_assoc t c d) ∙ ap (λ ys. ys ++ d) o ∙ append_assoc c t d)
    ∙ sym (append_assoc xs c (t ++ d))

-- The bytes behind the first `n` wait.
Waits-Sends :
    (c d r : TcpConnection) (xs : List ℕ) (n : ℕ)
    → IsBuffering c
    → is c disconnected ≡ false
    → Same (sent c (take n xs)) d
    → take n xs ++ content c.output ≡ content c.output ++ take n xs
    → n < length xs
    → Waits d (drop n xs) r
    → Sends c xs r
Waits-Sends c d r xs n b up s o more k =
    let e = k.appends.bytes ∙ ap (λ q. content q ++ drop n xs) s.output in
    let grows = subst (λ q. length q.buffer ≤ length r.output.buffer) s.output k.appends.grows in
    let some_left : ltb 0 (readable_bytes r.output) ≡ true = lt→ltb 0 (readable_bytes r.output) (
      omega (
        arith,
        ap length e,
        length-append (content c.output) (drop n xs),
        length-drop n xs,
        readable_bytes_lem r.output k.appends.valid,
        length-content r.output k.appends.valid,
        more,
      )) in
    let still_up : is r disconnected ≡ false = ap (λ st. code st == 0) (k.state ∙ s.state) ∙ up in
    record {
      buffering = record {
        valid = k.appends.valid;
        big = omega (arith, b.big, grows);
        busy = k.on ∙ sym (ap₂ (λ down left. not down && left) still_up some_left);
      };
      order =
          ap₂ ◌++◌ (k.wire ∙ s.wire) e
          ∙ regroup c.wire (take n xs) (content c.output) (drop n xs) o
          ∙ ap (λ ys. (c.wire ++ content c.output) ++ ys) (take-append-drop n xs);
      state = k.state ∙ s.state;
    }

unchanged-Sends : (c : TcpConnection) → IsBuffering c → Sends c [] c
unchanged-Sends c b = record {
  buffering = b;
  order = sym (append-nil (c.wire ++ content c.output));
  state = refl;
}

-- The end of sendInLoop, after the attempt.
sent-Sends :
    (c : TcpConnection) (xs : List ℕ) (a : Attempt)
    → IsBuffering c
    → Tries c xs a
    → is c disconnected ≡ false
    → length c.output.buffer + length xs < 2 ^ 62
    → (r : TcpConnection) × ((if not a.fault_error && ltb 0 a.remaining
          then keep a.conn xs a.nwrote a.remaining
          else some a.conn)
        ≡ some r)
      × Sends c (if a.fault_error then [] else xs) r
sent-Sends c xs a b t up g =
    let out = done-Sends c a.conn (take a.nwrote xs) b t.same t.order in
    elim (Bool-cases a.fault_error) [
      | inl fault ↦
          (a.conn, rw fault, rw fault (subst (λ n. Sends c (take n xs) a.conn) (t.fault fault) out))
      | inr fine ↦ elim (Bool-cases (ltb 0 a.remaining)) [
        | inl more ↦
            let room = subst (λ q. length q.buffer + length xs < 2 ^ 62) (sym t.same.output) g in
            let (r, e, k) =
              keep-Waits a.conn xs a.nwrote a.remaining (subst IsValid (sym t.same.output) b.valid)
                (omega (arith, room, t.rest)) (omega (arith, t.rest, t.within)) in
            let lt : a.nwrote < length xs = ground (arith, t.rest) in
            (
              r,
              rw (fine, more) e,
              rw fine (Waits-Sends c a.conn r xs a.nwrote b up t.same t.order lt k),
            )
        | inr all ↦
            let le : length xs ≤ a.nwrote = ground (arith, t.rest) in
            (
              a.conn,
              rw (fine, all),
              rw fine (subst (λ ys. Sends c ys a.conn) (take_all a.nwrote xs le) out),
            )
      ]
    ]

-- The asserts of sendInLoop hold, and the bytes on the wire and then those in the output buffer are
-- those from before and then, in order, the bytes handed over, whether the kernel takes all, some or
-- none of them at once. Only on a closed connection, and if nothing waits and the write fails with EPIPE
-- or ECONNRESET, the bytes are given up as a whole; after any other failure they wait. The connection
-- waits to write exactly while it is up and bytes are left. A write takes at most the bytes it is
-- given or fails, these are fewer than 2^31, and the buffer does not outgrow the address space.
pub send_in_loop-Sends :
    (c : TcpConnection) (xs : List ℕ) (w : Written)
    → IsBuffering c
    → Answers w (length xs)
    → length xs < 2 ^ 31
    → length c.output.buffer + length xs < 2 ^ 62
    → (r : TcpConnection) × (send_in_loop c xs w ≡ some r) × Sends c (accepted c xs w) r
unfolding send_in_loop
send_in_loop-Sends c xs w b h small g = elim (Bool-cases (is c disconnected)) [
  | inl down ↦ (
    c,
    rw down,
    subst (λ lost. Sends c (if lost then [] else xs) c) (sym (closed_lem c w down))
        (unchanged-Sends c b),
  )
  | inr up ↦
      let a = attempt c xs w in
      let t = attempt-Tries c xs w b h small in
      let (r, e, s) = sent-Sends c xs a b t up g in
      (
        r,
        rw
            (
              up,
              assert_lem (leb a.remaining (length xs))
                  (le→leb a.remaining (length xs) (omega (arith, t.rest))),
            )
            e,
        subst (λ lost. Sends c (if lost then [] else xs) r) (fault_lem c xs w b h small up) s,
      )
]
