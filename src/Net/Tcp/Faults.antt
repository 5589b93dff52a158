-- ===== src/Net/Tcp/Faults.antt =====
-- When TcpConnection::sendInLoop gives bytes up.
use xx_chat.Base.{
  ℕ, ◌%◌, ◌^◌, ◌<◌, ◌≡◌, sym, ◌∙◌, ◌⊎◌, inl, inr, Bool, true, false, not, ◌&&◌, ◌||◌, List, [],
  length, ◌==◌, if◌then◌else◌, arith, if_cases,
}
use xx_chat.Net.Buffer.{readable_bytes}
use xx_chat.Net.Buffer.Content.{content, length-content, readable_bytes_lem}
use xx_chat.Net.Channel.{is_writing}
use xx_chat.Net.Tcp.{
  TcpConnection, disconnected, is, Written, Attempt, attempt, write_directly, is_nonneg,
}
use xx_chat.Net.Tcp.Buffering.{IsBuffering}
use xx_chat.Net.Tcp.Attempts.{Answers}

-- Whether the bytes are given up: the connection is closed; or nothing waits, so that a write is tried,
-- and it fails with EPIPE or ECONNRESET.
abbrev pub is_lost : TcpConnection → Written → Bool
is_lost c w =
    is c disconnected
    || ((length (content c.output) == 0)
        && (w.result == 18446744073709551615)
        && ((w.errno == 32) || (w.errno == 104)))

abbrev pub accepted : TcpConnection → List ℕ → Written → List ℕ
accepted c xs w = if is_lost c w then [] else xs

pub closed_lem : (c : TcpConnection) (w : Written) → is c disconnected ≡ true → is_lost c w ≡ true
closed_lem c w down = ground (arith, down)

not_lost :
    (down idle failed fatal : Bool)
    → down ≡ false
    → (idle ≡ false) ⊎ (failed ≡ false)
    → false ≡ down || (idle && failed && fatal)
not_lost down idle failed fatal e h = ground (arith, e, h)

lost_if :
    (down idle failed fatal : Bool)
    → down ≡ false
    → idle ≡ true
    → failed ≡ true
    → fatal ≡ down || (idle && failed && fatal)
lost_if down idle failed fatal e f g = ground (arith, e, f, g)

-- errno of EAGAIN is no fault.
fatal_lem : (n : ℕ) → (not (n == 11) && ((n == 32) || (n == 104))) ≡ ((n == 32) || (n == 104))
fatal_lem n = ground arith

-- faultError is set for exactly the writes that lose their bytes.
pub fault_lem :
    (c : TcpConnection) (xs : List ℕ) (w : Written)
    → IsBuffering c
    → Answers w (length xs)
    → length xs < 2 ^ 31
    → is c disconnected ≡ false
    → (attempt c xs w).fault_error ≡ is_lost c w
unfolding attempt write_directly
fault_lem c xs w b h small up =
    let idle = length (content c.output) == 0 in
    let failed = w.result == 18446744073709551615 in
    let fatal = (w.errno == 32) || (w.errno == 104) in
    let same : readable_bytes c.output ≡ length (content c.output) =
      readable_bytes_lem c.output b.valid ∙ sym (length-content c.output b.valid) in
    if_cases (λ (a : Attempt). a.fault_error ≡ is_lost c w)
      (not (is_writing c.channel) && (readable_bytes c.output == 0))
      (λ free.
        let idle_now : idle ≡ true = ground (arith, free, same) in
        if_cases (λ (a : Attempt). a.fault_error ≡ is_lost c w) (is_nonneg 32 (w.result % 2 ^ 32))
          (λ took.
            not_lost (is c disconnected) idle failed fatal up (inr (ground (arith, took, h))))
          (λ not_taken.
            fatal_lem w.errno
            ∙ lost_if (is c disconnected) idle failed fatal up idle_now
                (ground (arith, not_taken, h, small))))
      (λ waits.
        not_lost (is c disconnected) idle failed fatal up
          (inl (ground (arith, waits, b.busy, up, same))))
