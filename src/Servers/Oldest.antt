-- ===== src/Servers/Oldest.antt =====
-- The choice of update_master_route_serv_conn (route_server_conn.cpp).
use xx_chat.Base.{
  ℕ, zero, suc, ◌-◌, ◌^◌, ◌≤◌, ◌<◌, ◌≡◌, refl, sym, ap, ◌∙◌, Bool, true, false, inl, inr, Option,
  none, some, List, [], ◌∷◌, ltb, arith, get_elem?, Option-cases, Bool-cases,
}
use mathlib.Core.Option.{some-injective}
use xx_chat.Base.Options.{found}
use xx_chat.Servers.{ServInfo, open_conn, oldest, update_master_route_serv_conn}
use xx_chat.Servers.RouteConns.{State, is_open, get_connect_time, update_master}
use xx_chat.Servers.Master.{update_master-MasterIsOpen}

module _ (p : ℕ → Bool) (connect_time : ℕ → ℕ) where
  -- The time of the best connection so far.
  abbrev best_time : Option ℕ → ℕ
  best_time o = found o 18446744073709551615 connect_time

  abbrev older : ServInfo ℕ → ℕ → Bool
  older s time = found (open_conn p s) false (λ c. ltb (connect_time c) time)

  -- One turn of the loop.
  record Turn (s : ServInfo ℕ) (best : Option ℕ) (time : ℕ) : Type 0 where
    best' : Option ℕ
    time' : ℕ
    loops :
        (rest : List (ServInfo ℕ))
        → oldest p connect_time (s ∷ rest) best time ≡ oldest p connect_time rest best' time'
    kept : time' ≡ best_time best'
    before : time' ≤ time
    least : (c : ℕ) → open_conn p s ≡ some c → time' ≤ connect_time c

  turn : (s : ServInfo ℕ) (best : Option ℕ) (time : ℕ) → time ≡ best_time best → Turn s best time
  unfolding oldest
  turn s best time h = elim (Option-cases (open_conn p s)) [
    | inl f ↦ record {
      best' = best;
      time' = time;
      loops = λ rest. rw f;
      kept = h;
      before = omega arith;
      least = λ c e. absurd cc;
    }
    | inr (c, f) ↦ elim (Bool-cases (ltb (connect_time c) time)) [
      | inl g ↦ record {
        best' = some c;
        time' = connect_time c;
        loops = λ rest. rw (f, g);
        kept = refl;
        before = ground (arith, g);
        least = λ d e. omega (arith, ap connect_time (some-injective c d (sym f ∙ e)));
      }
      | inr g ↦ record {
        best' = best;
        time' = time;
        loops = λ rest. rw (f, g);
        kept = h;
        before = omega arith;
        least = λ d e. ground (arith, ap connect_time (some-injective c d (sym f ∙ e)), g);
      }
    ]
  ]

  oldest-before :
      (servers : List (ServInfo ℕ)) (best : Option ℕ) (time : ℕ)
      → time ≡ best_time best
      → best_time (oldest p connect_time servers best time) ≤ time
  unfolding oldest
  oldest-before [] best time h = omega (arith, h)
  oldest-before (s ∷ servers) best time h =
      let t = turn s best time h in
      omega (
        arith,
        ap best_time (t.loops servers),
        oldest-before servers t.best' t.time' t.kept,
        t.before,
      )

  oldest-least :
      (servers : List (ServInfo ℕ)) (best : Option ℕ) (time i : ℕ) (server : ServInfo ℕ) (c : ℕ)
      → time ≡ best_time best
      → get_elem? servers i ≡ some server
      → open_conn p server ≡ some c
      → best_time (oldest p connect_time servers best time) ≤ connect_time c
  oldest-least [] best time i server c h e f = absurd cc
  oldest-least (s ∷ servers) best time zero server c h e f =
      let t = turn s best time h in
      let first : open_conn p s ≡ some c = ap (open_conn p) (some-injective s server e) ∙ f in
      omega (
        arith,
        ap best_time (t.loops servers),
        oldest-before servers t.best' t.time' t.kept,
        t.least c first,
      )
  oldest-least (s ∷ servers) best time (suc i) server c h e f =
      let t = turn s best time h in
      omega (
        arith,
        ap best_time (t.loops servers),
        oldest-least servers t.best' t.time' i server c t.kept e f,
      )

-- When a listed connection is open, made before the last tick of the clock, a master is chosen; it is
-- open, and was made no later than that connection.
pub update_master_lem :
    (s : State) (i : ℕ) (server : ServInfo ℕ) (c : ℕ)
    → get_elem? s.server_list i ≡ some server
    → open_conn (is_open s.conns) server ≡ some c
    → get_connect_time s.conns c < 2 ^ 64 - 1
    → (m : ℕ) × ((update_master s).master ≡ some m)
      × (is_open s.conns m ≡ true)
      × (get_connect_time s.conns m ≤ get_connect_time s.conns c)
unfolding update_master update_master_route_serv_conn
update_master_lem s i server c e f small =
    let least =
      oldest-least (is_open s.conns) (get_connect_time s.conns) s.server_list none
        18446744073709551615 i server c refl e f in
    elim (Option-cases (update_master s).master) [
      | inl g ↦ absurd (
          omega
            (arith, small, least, ap (best_time (is_open s.conns) (get_connect_time s.conns)) g))
      | inr (m, g) ↦ (
        m,
        g,
        (update_master-MasterIsOpen s).master_open m g,
        omega (arith, least, ap (best_time (is_open s.conns) (get_connect_time s.conns)) g),
      )
    ]
