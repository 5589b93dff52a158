-- ===== src/Sockets/Tests.antt =====
-- The sockets and timers on concrete values.
use xx_chat.Base.{◌+◌, ◌*◌, ◌≤◌, ◌≡◌, refl, [], ◌∷◌, arith, lookup}
use xx_chat.Sockets.{System, connected, new_base_socket, find_base_socket, object}
use xx_chat.Sockets.Handles.{netlib_close, IsClosed, IsKept, netlib_close_lem}
use xx_chat.Sockets.Timers.{new_timer, item_run, timer_rate}

abbrev one : System
one = record {
  store = (0, record new_base_socket { socket = 5; state = connected }) ∷ [];
  socket_map = (5, 0) ∷ [];
  next = 1;
  calls = [];
}

one-IsKept : IsKept one
unfolding lookup object
one-IsKept fd a h = ground arith

netlib_close_lem_example :
    let (sys', r) = netlib_close one 5 in
    (r ≡ 0) × IsClosed sys' 5 × (find_base_socket sys' 6 ≡ find_base_socket one 6)
unfolding find_base_socket lookup
netlib_close_lem_example =
    netlib_close_lem one 5 0 6 one-IsKept refl (λ e. absurd (omega (arith, e)))

timer_rate_example :
    let (t, n) = item_run (new_timer 9 1000 50) (100 ∷ 1060 ∷ 5000 ∷ []) in
    (50 + 1000 * n ≤ 5000) × (n ≤ 3) × (t.next_tick ≡ 50 + 1000 * (n + 1))
timer_rate_example =
    timer_rate 9 1000 50 5000 (100 ∷ 1060 ∷ 5000 ∷ []) (omega arith)
      (omega arith, (omega arith, (omega arith, tt))) (omega arith)
