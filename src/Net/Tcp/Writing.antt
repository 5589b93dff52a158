-- ===== src/Net/Tcp/Writing.antt =====
-- TcpConnection::handleWrite and the shutdown that waits for it.
use xx_chat.Base.{
  ℕ, ◌+◌, ◌≤◌, ◌≡◌, refl, sym, ap, ap₂, subst, ◌∙◌, ◌⊎◌, inl, inr, Bool, true, false, ◌&&◌, some,
  List, [], ◌∷◌, ◌++◌, length, take, drop, ltb, ◌==◌, if◌then◌else◌, arith, take-take_le,
  take-append-drop, append_assoc, if_cases, Bool-cases,
}
use xx_chat.Net.Buffer.{readable_bytes, peek}
use xx_chat.Net.Buffer.Content.{content, IsValid}
use xx_chat.Net.Buffer.Reading.{retrieve-Takes, peek_lem}
use xx_chat.Net.Channel.{is_writing, disable_writing}
use xx_chat.Net.Tcp.{
  TcpConnection, disconnected, connected, disconnecting, is, note, Effect, shutdown_write,
  queue_write_complete, Written, is_nonneg, waiting, drained, wrote, handle_write, shutdown_in_loop,
  shutdown,
}
use xx_chat.Net.Tcp.Buffering.{IsBuffering, content_nil}
use xx_chat.Net.Tcp.Attempts.{Answers}

-- How often the writing side of the socket has been shut down.
is_shut : Effect → ℕ
is_shut shutdown_write = 1
is_shut _ = 0

pub shuts : List Effect → ℕ
shuts [] = 0
shuts (e ∷ es) = is_shut e + shuts es

-- From `c` to `r`, the writing side is shut down only if no byte waits any more.
abbrev pub ShutsDrained : TcpConnection → TcpConnection → Type 0
ShutsDrained c r = (shuts r.done ≡ shuts c.done) ⊎ (content r.output ≡ [])

-- What handleWrite leaves: the same bytes in the same order, on the wire or waiting.
pub record Writes (c r : TcpConnection) : Type 0 where
  pub buffering : IsBuffering r
  pub order : r.wire ++ content r.output ≡ c.wire ++ content c.output
  pub state : r.state ≡ c.state
  pub shut : ShutsDrained c r

record Drains (c r : TcpConnection) : Type 0 where
  state : r.state ≡ c.state
  output : r.output ≡ c.output
  wire : r.wire ≡ c.wire
  off : is_writing r.channel ≡ false

shutdown_in_loop-Drains : (c r : TcpConnection) → Drains c r → Drains c (shutdown_in_loop r)
unfolding shutdown_in_loop
shutdown_in_loop-Drains c r d =
    if_cases (Drains c) (is_writing r.channel) (λ _. d)
      (λ _. record { state = d.state; output = d.output; wire = d.wire; off = d.off })

drained-Drains : (c : TcpConnection) → Drains c (drained c)
unfolding drained
drained-Drains c =
    let c1 : TcpConnection = record c { channel = disable_writing c.channel } in
    let c2 = if c.has_write_complete then note c1 queue_write_complete else c1 in
    let d : Drains c c2 =
      if_cases (Drains c) c.has_write_complete
        (λ _. record { state = refl; output = refl; wire = refl; off = refl })
        (λ _. record { state = refl; output = refl; wire = refl; off = refl }) in
    if_cases (Drains c) (is c2 disconnecting) (λ _. shutdown_in_loop-Drains c c2 d) (λ _. d)

-- The buffer of `c'` is empty and handleWrite stops waiting for the descriptor.
emptied-Writes :
    (c c' r : TcpConnection)
    → c'.state ≡ c.state
    → IsValid c'.output
    → 8 ≤ length c'.output.buffer
    → c'.wire ++ content c'.output ≡ c.wire ++ content c.output
    → Drains c' r
    → readable_bytes c'.output ≡ 0
    → Writes c r
emptied-Writes c c' r st v big order d empty =
    let none_left : readable_bytes r.output ≡ 0 = ap readable_bytes d.output ∙ empty in
    record {
      buffering = record {
        valid = subst IsValid (sym d.output) v;
        big = subst (λ q. 8 ≤ length q.buffer) (sym d.output) big;
        busy = ground (arith, d.off, none_left);
      };
      order = ap₂ (λ ys q. ys ++ content q) d.wire d.output ∙ order;
      state = d.state ∙ st;
      shut = inr (ap content d.output ∙ content_nil c'.output v empty);
    }

-- A connection that is busy is up.
busy-up :
    (c : TcpConnection) → IsBuffering c → is_writing c.channel ≡ true → is c disconnected ≡ false
busy-up c b on = ground (arith, b.busy)

waiting_lem :
    (c : TcpConnection)
    → IsBuffering c
    → (n : ℕ) → n ≤ readable_bytes c.output
    → take n (waiting c) ≡ take n (content c.output)
waiting_lem c b n h =
    take-take_le n (readable_bytes c.output) (peek c.output) h ∙ peek_lem c.output n b.valid h

wrote-Writes :
    (c : TcpConnection) (n : ℕ)
    → IsBuffering c
    → is c disconnected ≡ false
    → n ≤ readable_bytes c.output
    → is_writing c.channel ≡ true
    → (r : TcpConnection) × (wrote c n ≡ some r) × Writes c r
unfolding wrote
wrote-Writes c n b up h on =
    let (q, e, t) = retrieve-Takes c.output n b.valid b.big h in
    let c' : TcpConnection = record c { output = q; wire = c.wire ++ take n (waiting c) } in
    let order : (c.wire ++ take n (waiting c)) ++ content q ≡ c.wire ++ content c.output =
      ap₂ (λ ys zs. (c.wire ++ ys) ++ zs) (waiting_lem c b n h) t.left
      ∙ append_assoc c.wire (take n (content c.output)) (drop n (content c.output))
      ∙ ap (λ ys. c.wire ++ ys) (take-append-drop n (content c.output)) in
    let big : 8 ≤ length q.buffer = omega (arith, b.big, t.kept) in
    let d = drained-Drains c' in
    (
      if readable_bytes q == 0 then drained c' else c',
      rw e,
      if_cases (Writes c) (readable_bytes q == 0)
          (λ empty. emptied-Writes c c' (drained c') refl t.valid big order d (ground arith))
          (λ more. record {
            buffering = record { valid = t.valid; big = big; busy = ground (arith, b.busy) };
            order = order;
            state = refl;
            shut = inl refl;
          }),
    )

unchanged-Writes : (c : TcpConnection) → IsBuffering c → Writes c c
unchanged-Writes c b = record { buffering = b; order = refl; state = refl; shut = inl refl }

-- However many of the waiting bytes the kernel takes, none lost, doubled or reordered by handleWrite:
-- the bytes on the wire and then the waiting ones stay the same list; no assert fails; and the
-- writing side of the socket is shut down only if no byte is left.
pub handle_write-Writes :
    (c : TcpConnection) (w : Written)
    → IsBuffering c
    → Answers w (readable_bytes c.output)
    → (r : TcpConnection) × (handle_write c w ≡ some r) × Writes c r
unfolding handle_write
handle_write-Writes c w b h =
    let goes = is_writing c.channel && ltb 0 w.result && is_nonneg 64 w.result in
    elim (Bool-cases goes) [
      | inl yes_ ↦
          let on : is_writing c.channel ≡ true = ground (arith, yes_) in
          let le : w.result ≤ readable_bytes c.output = elim h [
            | inl n ↦ n
            | inr e ↦ absurd (ground (arith, yes_, e))
          ] in
          let (r, e, k) = wrote-Writes c w.result b (busy-up c b on) le on in (r, rw yes_ e, k)
      | inr no_ ↦ (c, rw no_, unchanged-Writes c b)
    ]

abbrev pub ShutsNow : TcpConnection → TcpConnection → Type 0
ShutsNow c r = ShutsDrained c r × (r.output ≡ c.output) × (r.wire ≡ c.wire) × IsBuffering r

shutdown_in_loop-ShutsNow :
    (c : TcpConnection)
    → IsBuffering c
    → is c disconnected ≡ false
    → ShutsNow c (shutdown_in_loop c)
unfolding shutdown_in_loop
shutdown_in_loop-ShutsNow c b up =
    if_cases (ShutsNow c) (is_writing c.channel) (λ _. (inl refl, refl, refl, b))
      (λ off. (
        inr (content_nil c.output b.valid (ground (arith, b.busy))),
        refl,
        refl,
        record { valid = b.valid; big = b.big; busy = b.busy },
      ))

-- shutdown shuts the writing side down at once only if no byte waits, and leaves the bytes, on the
-- wire and waiting, alone; from another thread it shuts nothing down itself.
pub shutdown-ShutsNow :
    (c : TcpConnection) (in_loop : Bool) → IsBuffering c → ShutsNow c (shutdown c in_loop)
unfolding shutdown shuts is_shut
shutdown-ShutsNow c in_loop b = elim (Bool-cases (is c connected)) [
  | inl up ↦
      let c' : TcpConnection = record c { state = disconnecting } in
      let b' : IsBuffering c' = record {
        valid = b.valid;
        big = b.big;
        busy = ground (arith, b.busy);
      } in
      elim (Bool-cases in_loop) [
        | inl now ↦ rw (up, now) (shutdown_in_loop-ShutsNow c' b' refl)
        | inr later ↦
            rw (up, later)
              (
                inl (omega arith),
                refl,
                refl,
                record { valid = b.valid; big = b.big; busy = b'.busy },
              )
      ]
  | inr down ↦ rw down (inl refl, refl, refl, b)
]
