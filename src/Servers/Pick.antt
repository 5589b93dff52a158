-- ===== src/Servers/Pick.antt =====
-- Which connection of a list of servers the message server uses.
use xx_chat.Base.{
  ℕ, zero, suc, ◌+◌, ◌-◌, ◌≤◌, ◌<◌, ◌≡◌, refl, sym, ap, subst, ◌∙◌, Bool, false, inl, inr, Option,
  none, some, List, [], ◌∷◌, ◌++◌, length, get_elem?, take, drop, ◌==◌, if◌then◌else◌, arith,
  Option-cases, take_all, length-drop, take-append-drop,
}
use xx_chat.Base.Options.{found, found_cases}
use xx_chat.Servers.{
  ServInfo, open_conn, find_open, get_db_server_conn_in_range, get_db_serv_conn_for_login,
  get_db_serv_conn, first_of,
}

module _ {ℓ} {A : Type ℓ} where
  -- The element at an index in range, and the list from there.
  uncons_drop :
      (i : ℕ) (xs : List A)
      → i < length xs
      → (x : A) × (get_elem? xs i ≡ some x) × (drop i xs ≡ x ∷ drop (i + 1) xs)
  uncons_drop i [] h = ground arith
  uncons_drop zero (x ∷ xs) h = (x, refl, refl)
  uncons_drop (suc i) (x ∷ xs) h =
      let (y, e, d) = uncons_drop i xs (omega (arith, h)) in
      (y, e, d ∙ ap (λ k. y ∷ drop k (x ∷ xs)) {x = suc (i + 1)} (omega arith))

module _ {C : Type 0} (is_open : C → Bool) where
  -- The first open connection of a list.
  unfoldable pub first_open : List (ServInfo C) → Option C
  first_open [] = none
  first_open (s ∷ servers) = found (open_conn is_open s) (first_open servers) (λ c. some c)

  -- The index at which the loop stops: behind the range, or that of the first open connection.
  data Stops (servers : List (ServInfo C)) (end_ : ℕ) (i : ℕ) : Option C → Type 0 where
    behind : i ≡ end_ → Stops servers end_ i none
    at_ :
        (s : ServInfo C) (c : C)
        → i < end_
        → get_elem? servers i ≡ some s
        → open_conn is_open s ≡ some c
        → Stops servers end_ i (some c)

  find_open-Stops :
      (servers : List (ServInfo C)) (i n : ℕ)
      → i + n ≤ length servers
      → (j : ℕ) × (find_open is_open servers i n ≡ some j)
        × Stops servers (i + n) j (first_open (take n (drop i servers)))
  unfolding find_open first_open
  find_open-Stops servers i zero h = (i, refl, behind (omega arith))
  find_open-Stops servers i (suc n) h =
      let (s, e, d) = uncons_drop i servers (omega (arith, h)) in
      elim (Option-cases (open_conn is_open s)) [
        | inl closed ↦
            let (j, q, stops) = find_open-Stops servers (i + 1) n (omega (arith, h)) in
            let first : first_open (take n (drop (i + 1) servers))
                ≡ first_open (take (suc n) (drop i servers)) =
              sym (
                ap (λ xs. first_open (take (suc n) xs)) d
                ∙ ap (λ o. found o (first_open (take n (drop (i + 1) servers))) (λ c. some c))
                    closed) in
            (
              j,
              ap
                    (λ o. found o none (λ s'.
                      found (open_conn is_open s') (find_open is_open servers (i + 1) n)
                        (λ c. some i)))
                    e
                  ∙ ap (λ o. found o (find_open is_open servers (i + 1) n) (λ c. some i)) closed
                  ∙ q,
              subst (λ o. Stops servers (i + suc n) j o) first
                  (subst (λ k. Stops servers k j (first_open (take n (drop (i + 1) servers))))
                    {x = i + 1 + n} (omega arith) stops),
            )
        | inr (c, opened) ↦
            let first : some c ≡ first_open (take (suc n) (drop i servers)) = sym (
              ap (λ xs. first_open (take (suc n) xs)) d
              ∙ ap (λ o. found o (first_open (take n (drop (i + 1) servers))) (λ c. some c))
                  opened) in
            (
              i,
              ap
                    (λ o. found o none (λ s'.
                      found (open_conn is_open s') (find_open is_open servers (i + 1) n)
                        (λ c. some i)))
                    e
                  ∙ ap (λ o. found o (find_open is_open servers (i + 1) n) (λ c. some i)) opened,
              subst (λ o. Stops servers (i + suc n) i o) first (at_ s c (omega arith) e opened),
            )
      ]

  stopped :
      (servers : List (ServInfo C)) (end_ i : ℕ) (o : Option C)
      → Stops servers end_ i o
      → (if i == end_
          then some none
          else found
              (get_elem? servers i)
              none
              (λ s. found (open_conn is_open s) none (λ c. some (some c))))
        ≡ some o
  stopped servers end_ i o (behind e) = ground (arith, e)
  stopped servers end_ i o (at_ s c h e opened) =
      let other : (i == end_) ≡ false = ground (arith, h) in
      ap
        (λ b.
          if b
          then some none
          else found (get_elem? servers i) none
              (λ s'. found (open_conn is_open s') none (λ c'. some (some c'))))
        other
      ∙ ap (λ o'. found o' none (λ s'. found (open_conn is_open s') none (λ c'. some (some c')))) e
      ∙ ap (λ o'. found o' none (λ c'. some (some c'))) opened

  -- Between two positions in the list, get_db_server_conn_in_range finds the first open connection,
  -- if there is one; it neither throws nor searches forever.
  pub in_range_lem :
      (servers : List (ServInfo C)) (start_pos stop_pos : ℕ)
      → start_pos ≤ stop_pos
      → stop_pos ≤ length servers
      → get_db_server_conn_in_range is_open servers start_pos stop_pos
        ≡ some (first_open (take (stop_pos - start_pos) (drop start_pos servers)))
  unfolding get_db_server_conn_in_range
  in_range_lem servers start_pos stop_pos h k =
      let (j, e, stops) =
        find_open-Stops servers start_pos (stop_pos - start_pos) (omega (arith, h, k)) in
      rw e (
        stopped servers stop_pos j _ (
          subst
            (λ n.
              Stops servers n j (first_open (take (stop_pos - start_pos) (drop start_pos servers))))
            {x = start_pos + (stop_pos - start_pos)} (omega (arith, h)) stops))

  first_open-append :
      (xs ys : List (ServInfo C))
      → first_open (xs ++ ys) ≡ found (first_open xs) (first_open ys) (λ c. some c)
  unfolding first_open
  first_open-append [] ys = refl
  first_open-append (s ∷ xs) ys =
      found_cases
        (λ o.
          found (open_conn is_open s) (first_open (xs ++ ys)) (λ c. some c)
          ≡ found o (first_open ys) (λ c. some c))
        (open_conn is_open s)
        (λ e. ap (λ o. found o (first_open (xs ++ ys)) (λ c. some c)) e ∙ first_open-append xs ys)
        (λ c e. ap (λ o. found o (first_open (xs ++ ys)) (λ c'. some c')) e)

  first_of_lem :
      (a b : Option C) → first_of is_open (some a) (some b) ≡ some (found a b (λ c. some c))
  first_of_lem none b = refl
  first_of_lem (some c) b = refl

  -- For a login the message server uses the first open connection of the whole list of database
  -- servers; for all else the first one behind those for the login, and then of those.
  pub get_db_serv_conn_lem :
      (servers : List (ServInfo C)) (login_count : ℕ)
      → login_count ≤ length servers
      → (get_db_serv_conn_for_login is_open servers login_count (length servers)
          ≡ some (first_open servers))
        × (get_db_serv_conn is_open servers login_count (length servers)
            ≡ some (first_open (drop login_count servers ++ take login_count servers)))
  unfolding get_db_serv_conn_for_login get_db_serv_conn
  get_db_serv_conn_lem servers l h =
      let a = in_range_lem servers 0 l (omega arith) h in
      let b = in_range_lem servers l (length servers) h (omega arith) in
      let all : take (length servers - l) (drop l servers) ≡ drop l servers =
        take_all (length servers - l) (drop l servers) (omega (arith, length-drop l servers)) in
      let a' : get_db_server_conn_in_range is_open servers 0 l
          ≡ some (first_open (take l servers)) =
        a ∙ ap (λ k. some (first_open (take k servers))) {x = l - 0} (omega arith) in
      let b' : get_db_server_conn_in_range is_open servers l (length servers)
          ≡ some (first_open (drop l servers)) =
        b ∙ ap (λ xs. some (first_open xs)) all in
      (
        rw (a', b')
            (first_of_lem (first_open (take l servers)) (first_open (drop l servers))
              ∙ ap some (
                  sym (first_open-append (take l servers) (drop l servers))
                  ∙ ap first_open (take-append-drop l servers))),
        rw (a', b')
            (first_of_lem (first_open (drop l servers)) (first_open (take l servers))
              ∙ ap some (sym (first_open-append (drop l servers) (take l servers)))),
      )
