-- ===== src/Servers/Backoff.antt =====
-- When a process connects again to a server: serv_check_reconnect and serv_reset over time.
use xx_chat.Base.{
  ℕ, zero, suc, min, ◌+◌, ◌*◌, ◌%◌, ◌^◌, ◌≤◌, ◌<◌, ◌≡◌, refl, sym, ap, ap₂, ◌∙◌, none, some, List,
  ltb, if_cases, le→ltb, lt→ltb, arith,
}
use native.Mathlib.Numerals.{unary_clauses}
use xx_chat.Servers.{ServInfo, check_one, reset_one}

module _ {C : Type 0} (connect : List ℕ → ℕ → ℕ → C) where
  -- The server of index `i` after `n` ticks of the timer.
  abbrev pub ticks : ℕ → ℕ → ServInfo C → ServInfo C
  ticks i zero s = s
  ticks i (suc n) s = check_one connect (ticks i n s) i

  -- The waiting server.
  abbrev waiting : ServInfo C → ℕ → ServInfo C
  waiting s n = record s { idle_cnt = n; serv_conn = none }

  waits :
      (i n : ℕ) (s : ServInfo C)
      → n ≤ s.reconnect_cnt + 1
      → s.reconnect_cnt < 2 ^ 31
      → ticks i n (waiting s 0) ≡ waiting s n
  unfolding check_one
  waits i zero s h k = refl
  waits i (suc n) s h k =
      ap (λ t. check_one connect t i) (waits i n s (omega (arith, h)) k)
      ∙ rw (le→ltb s.reconnect_cnt n (omega (arith, h))) (ap (waiting s) (omega (arith, h, k)))

  -- The tick after the last of the wait.
  connects_lem :
      (i : ℕ) (s : ServInfo C)
      → s.reconnect_cnt < 2 ^ 31
      → (ticks i (s.reconnect_cnt + 2) (waiting s 0)).serv_conn
        ≡ some (connect s.server_ip s.server_port i)
  unfolding check_one
  connects_lem i s k =
      ap (λ n. (ticks i n (waiting s 0)).serv_conn) {x = s.reconnect_cnt + 2}
        {y = suc (s.reconnect_cnt + 1)} (omega arith)
      ∙ ap (λ t. (check_one connect t i).serv_conn)
          (waits i (s.reconnect_cnt + 1) s (omega arith) k)
      ∙ rw (lt→ltb s.reconnect_cnt (s.reconnect_cnt + 1) (omega arith))

  -- A server whose connection was closed `n` times in a row.
  abbrev pub resets : ℕ → ServInfo C → ServInfo C
  resets zero s = s
  resets (suc n) s = reset_one (resets n s)

  reconnect_cnt_lem :
      (n : ℕ) (s : ServInfo C)
      → s.reconnect_cnt ≡ 2
      → (resets n s).reconnect_cnt ≡ min 64 (2 ^ (n + 1))
  unfolding reset_one
  reconnect_cnt_lem zero s h = h
  reconnect_cnt_lem (suc n) s h =
      let ih = reconnect_cnt_lem n s h in
      let double : 2 ^ suc (n + 1) ≡ 2 ^ (n + 1) * 2 = simp unary_clauses refl in
      let same : 2 ^ (suc n + 1) ≡ 2 ^ suc (n + 1) = ap (λ j. 2 ^ j) (omega arith) in
      if_cases (λ r. r ≡ min 64 (2 ^ (suc n + 1)))
        (ltb 64 (((resets n s).reconnect_cnt * 2) % 2 ^ 32)) (λ e. ground (arith, ih, double, same))
        (λ e. ground (arith, ih, double, same))

  kept_lem :
      (n : ℕ) (s : ServInfo C)
      → ((resets n s).server_ip ≡ s.server_ip) × ((resets n s).server_port ≡ s.server_port)
  unfolding reset_one
  kept_lem zero s = (refl, refl)
  kept_lem (suc n) s = kept_lem n s

  -- From a count of 2, which serv_init and the OnConfirm of some classes set, and n+1 closings in a row, with nothing
  -- that sets the count between them: the server is left alone for the first min(64, 2^(n+2)) + 1
  -- ticks of the timer, and is connected to at the next one.
  pub reconnect_lem :
      (i n k : ℕ) (s : ServInfo C)
      → s.reconnect_cnt ≡ 2
      → k ≤ min 64 (2 ^ (n + 2)) + 1
      → let closed = resets (suc n) s in
        ((ticks i k closed).serv_conn ≡ none)
        × ((ticks i (min 64 (2 ^ (n + 2)) + 2) closed).serv_conn
            ≡ some (connect s.server_ip s.server_port i))
  unfolding reset_one
  reconnect_lem i n k s h l =
      let closed = resets (suc n) s in
      let r : closed.reconnect_cnt ≡ min 64 (2 ^ (n + 2)) =
        reconnect_cnt_lem (suc n) s h ∙ ap (λ j. min 64 (2 ^ j)) (omega arith) in
      let (ip, port) = kept_lem (suc n) s in
      (
        ap (λ t. t.serv_conn) (waits i k closed (omega (arith, r, l)) (omega (arith, r))),
        ap (λ j. (ticks i (j + 2) closed).serv_conn) (sym r)
            ∙ connects_lem i closed (omega (arith, r))
            ∙ ap₂ (λ a p. some (connect a p i)) ip port,
      )
