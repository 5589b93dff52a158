-- ===== src/Net/Tcp/Attempts.antt =====
-- TcpConnection: the attempt of sendInLoop to write at once.
use xx_chat.Base.{
  ℕ, ◌-◌, ◌%◌, ◌^◌, ◌≤◌, ◌<◌, ◌≡◌, refl, sym, ap, ◌∙◌, ◌⊎◌, inl, inr, true, not, ◌&&◌, List, [],
  ◌++◌, length, take, ◌==◌, if◌then◌else◌, arith, append-nil, if_cases, subst,
}
use xx_chat.Net.Buffer.{sub_size, readable_bytes}
use xx_chat.Net.Buffer.Content.{content}
use xx_chat.Net.Channel.{is_writing}
use xx_chat.Net.Tcp.{
  TcpConnection, note, queue_write_complete, Written, is_nonneg, taken, Attempt, write_directly,
  attempt,
}
use xx_chat.Net.Tcp.Buffering.{IsBuffering, content_nil, Same, Same-note_if, sent}

-- What `write` can return for `len` bytes: how many it took, or -1.
abbrev pub Answers : Written → ℕ → Type 0
Answers w len = (w.result ≤ len) ⊎ (w.result ≡ 2 ^ 64 - 1)

-- An attempt to write `xs` at once.
pub record Tries (c : TcpConnection) (xs : List ℕ) (a : Attempt) : Type 0 where
  pub same : Same (sent c (take a.nwrote xs)) a.conn
  pub within : a.nwrote ≤ length xs
  pub rest : a.remaining ≡ length xs - a.nwrote
  pub order : take a.nwrote xs ++ content c.output ≡ content c.output ++ take a.nwrote xs
  pub fault : a.fault_error ≡ true → a.nwrote ≡ 0

taken_some :
    (xs : List ℕ) (w : Written)
    → w.result ≤ length xs
    → length xs < 2 ^ 31
    → taken w xs ≡ take (w.result % 2 ^ 32) xs
taken_some xs w h small =
    if_cases (λ (ys : List ℕ). ys ≡ take (w.result % 2 ^ 32) xs) (is_nonneg 64 w.result)
      (λ _. ap (λ n. take n xs) {x = w.result} {y = w.result % 2 ^ 32} (omega arith))
      (λ no. absurd (ground arith))

taken_none : (xs : List ℕ) (w : Written) → w.result ≡ 2 ^ 64 - 1 → taken w xs ≡ []
taken_none xs w h =
    if_cases (λ (ys : List ℕ). ys ≡ []) (is_nonneg 64 w.result) (λ no. absurd (ground arith))
      (λ _. refl)

took-Tries :
    (c : TcpConnection) (xs : List ℕ) (w : Written)
    → content c.output ≡ []
    → w.result ≤ length xs
    → length xs < 2 ^ 31
    → Tries c xs (write_directly c xs w)
unfolding write_directly
took-Tries c xs w nil h small =
    let n = w.result % 2 ^ 32 in
    let same_n : n ≡ w.result = omega arith in
    let rest = sub_size (length xs) n in
    let c' = sent c (taken w xs) in
    if_cases (Tries c xs) (is_nonneg 32 n)
      (λ _. record {
        same =
            subst
              (λ ys.
                Same (sent c ys) (
                  if (rest == 0) && c.has_write_complete then note c' queue_write_complete else c'))
              (taken_some xs w h small)
              (Same-note_if ((rest == 0) && c.has_write_complete) c' queue_write_complete);
        within = omega (arith, same_n);
        rest = omega (arith, same_n);
        order =
            ap (λ ys. take n xs ++ ys) nil
            ∙ append-nil (take n xs)
            ∙ ap (λ ys. ys ++ take n xs) (sym nil);
        fault = λ e. absurd (ground arith);
      })
      (λ no. absurd (ground arith))

failed-Tries :
    (c : TcpConnection) (xs : List ℕ) (w : Written)
    → w.result ≡ 2 ^ 64 - 1
    → Tries c xs (write_directly c xs w)
unfolding write_directly
failed-Tries c xs w h =
    let n = w.result % 2 ^ 32 in
    let e = ap (λ ys. c.wire ++ ys) (taken_none xs w h) in
    if_cases (Tries c xs) (is_nonneg 32 n) (λ no. absurd (ground arith))
      (λ _. record {
        same = record { state = refl; channel = refl; output = refl; wire = e };
        within = omega arith;
        rest = omega arith;
        order = sym (append-nil (content c.output));
        fault = λ f. refl;
      })

pub attempt-Tries :
    (c : TcpConnection) (xs : List ℕ) (w : Written)
    → IsBuffering c
    → Answers w (length xs)
    → length xs < 2 ^ 31
    → Tries c xs (attempt c xs w)
unfolding attempt
attempt-Tries c xs w b h small =
    if_cases (Tries c xs) (not (is_writing c.channel) && (readable_bytes c.output == 0))
      (λ free. elim h [
        | inl n ↦ took-Tries c xs w (content_nil c.output b.valid (ground arith)) n small
        | inr e ↦ failed-Tries c xs w e
      ])
      (λ _. record {
        same = record {
          state = refl;
          channel = refl;
          output = refl;
          wire = sym (append-nil c.wire);
        };
        within = omega arith;
        rest = omega arith;
        order = sym (append-nil (content c.output));
        fault = λ e. refl;
      })
