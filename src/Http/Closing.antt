-- ===== src/Http/Closing.antt =====
-- When HttpConn closes its socket: Send, and OnWrite until the connection is closed.
use xx_chat.Base.{
  ℕ, ◌≡◌, refl, ap, ◌∙◌, ap₂, subst, inl, inr, Bool, Bool-cases, true, false, not, List, [], ◌∷◌,
  ◌++◌, length, ltb, arith, if_cases,
}
use xx_chat.Conn.{Answer, accepted}
use xx_chat.Http.{
  HttpConn, Effect, puts, closes, State, Step, close, send, on_write, on_write_complete,
}

-- The events that the socket is writable, one after the other, with the kernel's answers.
unfoldable pub on_writes : HttpConn → State → List Answer → Step
unfolding on_write
on_writes c s [] = (c, s, [])
on_writes c s (a ∷ answers) =
    let (c', s', out) = on_write c a s in
    let (c'', s'', more) = on_writes c' s' answers in (c'', s'', out ++ more)

-- What happens to the socket `h`: bytes are put on it, and it is closed last of all and once, exactly if
-- nothing is left to go out.
pub Ends : ℕ → Bool → List Effect → Type 0
Ends h left [] = left ≡ true
Ends h left (puts k xs ∷ es) = (k ≡ h) × Ends h left es
Ends h left (closes k ∷ es) = (k ≡ h) × (es ≡ []) × (left ≡ false)

-- What a step of a connection that is serving does to its socket.
pub record Closing (h : ℕ) (r : Step) : Type 0 where
  pub handle : r.0.sock_handle ≡ h
  pub ends : Ends h r.0.busy r.2

on_write-Closing :
    (c : HttpConn) (a : Answer) (s : State) → c.busy ≡ true → Closing c.sock_handle (on_write c a s)
unfolding on_write on_write_complete close Ends
on_write-Closing c a s on =
    let size = c.out_buf.write_offset in
    if_cases (Closing c.sock_handle) (not c.busy) (λ off. absurd (ground (arith, off, on)))
      (λ _.
        if_cases (Closing c.sock_handle) (ltb (accepted a size) size)
          (λ more. record { handle = refl; ends = (refl, refl) })
          (λ all. record { handle = refl; ends = (refl, (refl, refl, refl)) }))

pub send-Closing :
    (c : HttpConn) (now : ℕ) (data_ : List ℕ) (a : Answer) (s : State)
    → c.busy ≡ false
    → Closing c.sock_handle (send c now data_ a s)
unfolding send on_write_complete close Ends
send-Closing c now data_ a s off =
    let len = length data_ in
    if_cases (Closing c.sock_handle) c.busy (λ on. absurd (ground (arith, off, on)))
      (λ _.
        if_cases (Closing c.sock_handle) (ltb (accepted a len) len)
          (λ more. record { handle = refl; ends = (refl, refl) })
          (λ all. record { handle = refl; ends = (refl, (refl, refl, off)) }))

-- Once the response is out, nothing happens any more.
on_write_done :
    (c : HttpConn) (a : Answer) (s : State) → c.busy ≡ false → on_write c a s ≡ (c, s, [])
unfolding on_write
on_write_done c a s off =
    if_cases (λ (r : Step). r ≡ (c, s, [])) (not c.busy) (λ _. refl)
      (λ on. absurd (ground (arith, off, on)))

-- A step, and then the events.
abbrev pub continued : List Answer → Step → Step
continued answers (c, s, out) = let (c', s', more) = on_writes c s answers in (c', s', out ++ more)

on_writes_done :
    (c : HttpConn) (s : State) (answers : List Answer)
    → c.busy ≡ false
    → on_writes c s answers ≡ (c, s, [])
unfolding on_writes
on_writes_done c s [] off = refl
on_writes_done c s (a ∷ answers) off =
    ap (continued answers) (on_write_done c a s off) ∙ on_writes_done c s answers off

Ends-append :
    (h : ℕ) (b left : Bool) (es fs : List Effect)
    → Ends h b es
    → (b ≡ true → Ends h left fs)
    → (b ≡ false → (fs ≡ []) × (left ≡ false))
    → Ends h left (es ++ fs)
unfolding Ends
Ends-append h b left [] fs e on off = on e
Ends-append h b left (puts k xs ∷ es) fs (same, e) on off =
    (same, Ends-append h b left es fs e on off)
Ends-append h b left (closes k ∷ es) fs (same, e, done) on off =
    let (none_more, gone) = off done in (same, ap₂ ◌++◌ e none_more, gone)

pub continued-Closing :
    (h : ℕ) (r : Step) (answers : List Answer)
    → Closing h r
    → (r.0.busy ≡ true → Closing r.0.sock_handle (on_writes r.0 r.1 answers))
    → Closing h (continued answers r)
continued-Closing h r answers k busy_case =
    let q = on_writes r.0 r.1 answers in
    elim (Bool-cases r.0.busy) [
      | inl on ↦
          let m = busy_case on in
          record {
            handle = m.handle ∙ k.handle;
            ends =
                Ends-append h r.0.busy q.0.busy r.2 q.2 k.ends
                  (λ _. subst (λ j. Ends j q.0.busy q.2) k.handle m.ends)
                  (λ off. absurd (ground (arith, off, on)));
          }
      | inr off ↦
          let d = on_writes_done r.0 r.1 answers off in
          record {
            handle = ap (λ (p : Step). p.0.sock_handle) d ∙ k.handle;
            ends =
                Ends-append h r.0.busy q.0.busy r.2 q.2 k.ends
                  (λ on. absurd (ground (arith, off, on)))
                  (λ _. (ap (λ (p : Step). p.2) d, ap (λ (p : Step). p.0.busy) d ∙ off));
          }
    ]

pub on_writes-Closing :
    (c : HttpConn) (s : State) (answers : List Answer)
    → c.busy ≡ true
    → Closing c.sock_handle (on_writes c s answers)
unfolding on_writes Ends
on_writes-Closing c s [] on = record { handle = refl; ends = on }
on_writes-Closing c s (a ∷ answers) on =
    continued-Closing c.sock_handle (on_write c a s) answers (on_write-Closing c a s on)
      (on_writes-Closing (on_write c a s).0 (on_write c a s).1 answers)
