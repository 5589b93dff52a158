-- ===== src/Net/Tcp/Buffering.antt =====
-- TcpConnection: what holds of its output buffer between two calls.
use xx_chat.Base.{
  ℕ, ◌≤◌, ◌≡◌, refl, sym, ap, ◌∙◌, Bool, not, ◌&&◌, List, [], ◌++◌, length, take, ltb, ◌==◌,
  if◌then◌else◌, arith, length-take, drop_all, if_cases, subst, ap₂,
}
use xx_chat.Net.Buffer.{Buffer, readable_bytes}
use xx_chat.Net.Buffer.Content.{content, IsValid, readable_bytes_lem}
use xx_chat.Net.Channel.{is_writing}
use xx_chat.Net.Tcp.{TcpConnection, disconnected, code, is, note, Effect}

-- The output buffer is in order, and the connection waits for the descriptor to become writable
-- exactly while it is up and bytes are left.
pub record IsBuffering (c : TcpConnection) : Type 0 where
  pub valid : IsValid c.output
  pub big : 8 ≤ length c.output.buffer
  pub busy : is_writing c.channel ≡ not (is c disconnected) && ltb 0 (readable_bytes c.output)

-- A connection that differs from another in the callbacks only.
pub record Same (c r : TcpConnection) : Type 0 where
  pub state : r.state ≡ c.state
  pub channel : r.channel ≡ c.channel
  pub output : r.output ≡ c.output
  pub wire : r.wire ≡ c.wire

pub Same-note_if : (b : Bool) (c : TcpConnection) (e : Effect) → Same c (if b then note c e else c)
Same-note_if b c e =
    if_cases (Same c) b (λ _. record { state = refl; channel = refl; output = refl; wire = refl })
      (λ _. record { state = refl; channel = refl; output = refl; wire = refl })

pub content_nil : (b : Buffer) → IsValid b → readable_bytes b ≡ 0 → content b ≡ []
content_nil b v e =
    let n = readable_bytes_lem b v in
    drop_all b.reader_index (take b.writer_index b.buffer)
      (omega (arith, v, n, length-take b.writer_index b.buffer))

abbrev pub sent : TcpConnection → List ℕ → TcpConnection
sent c ys = record c { wire = c.wire ++ ys }

pub Same-IsBuffering : (c r : TcpConnection) → Same c r → IsBuffering c → IsBuffering r
Same-IsBuffering c r s b = record {
  valid = subst IsValid (sym s.output) b.valid;
  big = subst (λ o. 8 ≤ length o.buffer) (sym s.output) b.big;
  busy =
      ap is_writing s.channel
      ∙ b.busy
      ∙ ap₂ (λ st o. not (code st == 0) && ltb 0 (readable_bytes o)) (sym s.state) (sym s.output);
}
