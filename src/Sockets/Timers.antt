-- ===== src/Sockets/Timers.antt =====
-- The timers and loop callbacks of EventDispatch, xx_chat_server/src/base/event_dispatch.cpp.
-- A callback is a number. No callback adds a timer: the servers register theirs before the loop starts.
use xx_chat.Base.{
  ℕ, suc, ◌⊎◌, inl, inr, ◌+◌, ◌*◌, ◌%◌, ◌^◌, ◌≤◌, ◌<◌, ◌≡◌, refl, ap, ◌∙◌, Bool, true, false, List,
  [], ◌∷◌, ◌++◌, length, map, leb, Bool-cases, subst, if◌then◌else◌, arith,
}
use native.Mathlib.Nat.{mul-suc}

pub record TimerItem : Type 0 where
  pub callback : ℕ
  pub interval : ℕ
  pub next_tick : ℕ

pub record EventDispatch : Type 0 where
  pub timer_list : List TimerItem
  pub loop_list : List ℕ
  pub running : Bool

abbrev pub new_event_dispatch : EventDispatch
new_event_dispatch = record { timer_list = []; loop_list = []; running = false }

-- `now`: what GetTickCount returns. uint64_t wraps.
unfoldable pub new_timer : ℕ → ℕ → ℕ → TimerItem
new_timer callback interval now = record {
  callback = callback;
  interval = interval;
  next_tick = (now + interval) % 2 ^ 64;
}

unfoldable pub add_timer : EventDispatch → ℕ → ℕ → ℕ → EventDispatch
unfolding new_timer
add_timer d callback interval now = record d {
  timer_list = d.timer_list ++ new_timer callback interval now ∷ [];
}

-- The search for the callback is commented out.
abbrev pub remove_timer : EventDispatch → ℕ → EventDispatch
remove_timer d callback = d

unfoldable pub add_loop : EventDispatch → ℕ → EventDispatch
add_loop d callback = record d { loop_list = d.loop_list ++ callback ∷ [] }

-- One timer at a tick: what it becomes, and whether it fires.
unfoldable pub check_item : ℕ → TimerItem → TimerItem × Bool
check_item now t =
    if leb t.next_tick now
    then (record t { next_tick = (t.next_tick + t.interval) % 2 ^ 64 }, true)
    else (t, false)

-- The timers after CheckTimer, and the callbacks it calls, in order.
unfoldable pub check_timers : ℕ → List TimerItem → List TimerItem × List ℕ
unfolding check_item
check_timers now [] = ([], [])
check_timers now (t ∷ ts) =
    let (t', fires) = check_item now t in
    let (ts', more) = check_timers now ts in (t' ∷ ts', if fires then t.callback ∷ more else more)

unfoldable pub check_timer : EventDispatch → ℕ → EventDispatch × List ℕ
unfolding check_timers
check_timer d now =
    let (ts, fired) = check_timers now d.timer_list in (record d { timer_list = ts }, fired)

-- One timer over several ticks, and how often it fires.
unfoldable pub item_run : TimerItem → List ℕ → TimerItem × ℕ
unfolding check_item
item_run t [] = (t, 0)
item_run t (now ∷ ns) =
    let (t', fires) = check_item now t in
    let (t'', n) = item_run t' ns in (t'', if fires then n + 1 else n)

unfoldable pub timers_run : List TimerItem → List ℕ → List TimerItem
unfolding check_timers
timers_run ts [] = ts
timers_run ts (now ∷ ns) = timers_run (check_timers now ts).0 ns

check_timers-map :
    (now : ℕ) (ts : List TimerItem) → (check_timers now ts).0 ≡ map (λ t. (check_item now t).0) ts
unfolding check_timers
check_timers-map now [] = refl
check_timers-map now (t ∷ ts) = ap (◌∷◌ (check_item now t).0) (check_timers-map now ts)

-- The ticks come no later than `last`.
abbrev pub Until : ℕ → List ℕ → Type 0
Until last [] = Unit {0}
Until last (now ∷ ns) = (now ≤ last) × Until last ns

mul_add_one : (k n : ℕ) → k * (n + 1) ≡ k * n + k
mul_add_one k n = ap (λ m. k * m) {x = n + 1} {y = suc n} (omega arith) ∙ mul-suc k n

-- What a timer with the period `k` that is due at `due` has become after it fired `n` times by the
-- tick `last`.
record Paced (k due last n : ℕ) (t : TimerItem) : Type 0 where
  tick : t.next_tick ≡ due + k * n
  late : due + k * n ≤ due ⊎ due + k * n ≤ last + k

-- The timer fires once more, at a tick no later than `last`.
Paced-more :
    (k due last n : ℕ) (t : TimerItem)
    → due ≤ last
    → Paced k (due + k) last n t
    → Paced k due last (n + 1) t
Paced-more k due last n t h p =
    let e = mul_add_one k n in
    record {
      tick = omega (arith, e, p.tick);
      late = inr (elim p.late [ inl first ↦ omega (arith, e, h) | inr on ↦ omega (arith, e, on) ]);
    }

abbrev Runs : ℕ → TimerItem → List ℕ → TimerItem × ℕ → Type 0
Runs last t ns r = Paced t.interval t.next_tick last r.1 r.0 × (r.1 ≤ length ns)

item_run-Paced :
    (t : TimerItem) (ns : List ℕ) (last : ℕ)
    → Until last ns
    → last + t.interval < 2 ^ 64
    → Runs last t ns (item_run t ns)
unfolding item_run check_item
item_run-Paced t [] last u g =
    (record { tick = omega arith; late = inl (omega arith) }, omega arith)
item_run-Paced t (now ∷ ns) last u g = elim (Bool-cases (leb t.next_tick now)) [
  | inl due ↦
      let le : t.next_tick ≤ last = ground (arith, due, u.0) in
      let t' : TimerItem = record t { next_tick = (t.next_tick + t.interval) % 2 ^ 64 } in
      let e : t'.next_tick ≡ t.next_tick + t.interval = omega (arith, le, g) in
      let (p, l) = item_run-Paced t' ns last u.1 g in
      rw due (
        Paced-more t.interval t.next_tick last (item_run t' ns).1 (item_run t' ns).0 le
            (subst (λ d. Paced t.interval d last (item_run t' ns).1 (item_run t' ns).0) e p),
        omega (arith, l),
      )
  | inr early ↦ let (p, l) = item_run-Paced t ns last u.1 g in rw early (p, omega (arith, l))
]

-- Registered at the tick `start`, a timer never fires more often than its interval allows: after n
-- calls of its callback at least n intervals have passed; it fires at most once in a call of
-- CheckTimer, and its next tick keeps to the raster of `start`, however late the calls come. The ticks
-- do not reach the end of uint64_t.
pub timer_rate :
    (callback interval start last : ℕ) (ns : List ℕ)
    → start ≤ last
    → Until last ns
    → last + interval < 2 ^ 64
    → let (t, n) = item_run (new_timer callback interval start) ns in
      (start + interval * n ≤ last) × (n ≤ length ns) × (t.next_tick ≡ start + interval * (n + 1))
unfolding new_timer
timer_rate callback interval start last ns h u g =
    let t = new_timer callback interval start in
    let due : t.next_tick ≡ start + interval = omega (arith, h, g) in
    let (p, l) = item_run-Paced t ns last u g in
    let e = mul_add_one interval (item_run t ns).1 in
    (
      elim p.late [ inl first ↦ omega (arith, first, h) | inr on ↦ omega (arith, on, due) ],
      l,
      omega (arith, p.tick, due, e),
    )
