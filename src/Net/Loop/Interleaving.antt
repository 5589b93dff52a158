-- ===== src/Net/Loop/Interleaving.antt =====
-- The queue of EventLoop under any interleaving of its thread with the others.
use xx_chat.Base.{
  ℕ, suc, ◌<◌, arith, ◌≡◌, ◌≢◌, refl, sym, ap, ◌∙◌, Bool, true, false, List, [], ◌∷◌, ◌++◌,
  append_assoc, append-nil, if◌then◌else◌,
}
use xx_chat.Net.Loop.{
  EventLoop, new_loop, handle_read, wakeup, queue_in_loop, begin_pending, end_pending,
}

-- Where the thread of the loop is: in epoll_wait, with the active channels, or in doPendingFunctors
-- with these functors still to call.
pub data Phase : Type 0 where
  polling handling : Phase
  calling : List ℕ → Phase

pub record Machine : Type 0 where
  pub event_loop : EventLoop
  pub phase : Phase
  pub executed : List ℕ
  pub wakers : ℕ

unfoldable pub new_machine : Machine
unfolding new_loop
new_machine = record { event_loop = new_loop; phase = polling; executed = []; wakers = 0 }

-- queueInLoop of another thread up to its write to the eventfd, and whether it is going to write.
abbrev pub before_wakeup : EventLoop → ℕ → EventLoop
before_wakeup e f = record (queue_in_loop e false f) { woken = e.woken }

abbrev pub will_wake : EventLoop → ℕ → Bool
will_wake e f = (queue_in_loop (record e { woken = false }) false f).woken

-- A step, with the functors that it queues. Another thread calls queueInLoop in two steps, since it
-- writes to the eventfd, if it does, without the mutex; `wakers` are the threads between the two. The
-- eventfd is read while the channels are handled; the thread of the loop queues only while it handles
-- channels or calls functors.
pub data Step : Machine → List ℕ → Machine → Type 0 where
  pushed :
      (e : EventLoop) (p : Phase) (xs : List ℕ) (n f : ℕ)
      → Step
          (record { event_loop = e; phase = p; executed = xs; wakers = n })
          (f ∷ [])
          (record {
            event_loop = before_wakeup e f;
            phase = p;
            executed = xs;
            wakers = if will_wake e f then suc n else n;
          })
  woke :
      (e : EventLoop) (p : Phase) (xs : List ℕ) (n : ℕ)
      → Step
          (record { event_loop = e; phase = p; executed = xs; wakers = suc n })
          []
          (record { event_loop = wakeup e; phase = p; executed = xs; wakers = n })
  queued_by_channel :
      (e : EventLoop) (xs : List ℕ) (n : ℕ) (f : ℕ)
      → Step
          (record { event_loop = e; phase = handling; executed = xs; wakers = n })
          (f ∷ [])
          (record {
            event_loop = queue_in_loop e true f;
            phase = handling;
            executed = xs;
            wakers = n;
          })
  queued_by_functor :
      (e : EventLoop) (xs fs : List ℕ) (n : ℕ) (f : ℕ)
      → Step
          (record { event_loop = e; phase = calling fs; executed = xs; wakers = n })
          (f ∷ [])
          (record {
            event_loop = queue_in_loop e true f;
            phase = calling fs;
            executed = xs;
            wakers = n;
          })
  polled :
      (e : EventLoop) (xs : List ℕ) (n : ℕ)
      → Step
          (record { event_loop = e; phase = polling; executed = xs; wakers = n })
          []
          (record { event_loop = e; phase = handling; executed = xs; wakers = n })
  woken_up :
      (e : EventLoop) (xs : List ℕ) (n : ℕ)
      → Step
          (record { event_loop = e; phase = handling; executed = xs; wakers = n })
          []
          (record { event_loop = handle_read e; phase = handling; executed = xs; wakers = n })
  swapped :
      (e : EventLoop) (xs : List ℕ) (n : ℕ)
      → Step
          (record { event_loop = e; phase = handling; executed = xs; wakers = n })
          []
          (record {
            event_loop = begin_pending e;
            phase = calling e.pending_functors;
            executed = xs;
            wakers = n;
          })
  called :
      (e : EventLoop) (xs fs : List ℕ) (n : ℕ) (f : ℕ)
      → Step
          (record { event_loop = e; phase = calling (f ∷ fs); executed = xs; wakers = n })
          []
          (record { event_loop = e; phase = calling fs; executed = xs ++ f ∷ []; wakers = n })
  finished :
      (e : EventLoop) (xs : List ℕ) (n : ℕ)
      → Step
          (record { event_loop = e; phase = calling []; executed = xs; wakers = n })
          []
          (record { event_loop = end_pending e; phase = polling; executed = xs; wakers = n })

-- Any number of steps, with all functors queued.
pub data Run : Machine → List ℕ → Machine → Type 0 where
  started : (m : Machine) → Run m [] m
  then_step : {m n o : Machine} {qs fs : List ℕ} → Run m qs n → Step n fs o → Run m (qs ++ fs) o

-- The functors that doPendingFunctors has taken over.
pub taken : Phase → List ℕ
taken polling = []
taken handling = []
taken (calling fs) = fs

is_calling : Phase → Bool
is_calling polling = false
is_calling handling = false
is_calling (calling fs) = true

-- Functors in the queue are called in this turn, or the next epoll_wait will not sleep, or a thread is
-- about to wake it.
pub data Safe : Machine → Type 0 where
  busy : {m : Machine} → m.phase ≡ handling → Safe m
  nothing : {m : Machine} → m.event_loop.pending_functors ≡ [] → Safe m
  awake : {m : Machine} → m.event_loop.woken ≡ true → Safe m
  soon : {m : Machine} → 0 < m.wakers → Safe m

record Holds (qs : List ℕ) (m : Machine) : Type 0 where
  order : m.executed ++ (taken m.phase ++ m.event_loop.pending_functors) ≡ qs
  flag : m.event_loop.calling_pending_functors ≡ is_calling m.phase
  safe : Safe m

queued_lem :
    (xs ts ps : List ℕ) (f : ℕ) {qs : List ℕ}
    → xs ++ (ts ++ ps) ≡ qs
    → xs ++ (ts ++ (ps ++ f ∷ [])) ≡ qs ++ f ∷ []
queued_lem xs ts ps f h =
    ap (λ ys. xs ++ ys) (sym (append_assoc ts ps (f ∷ [])))
    ∙ sym (append_assoc xs (ts ++ ps) (f ∷ []))
    ∙ ap (λ ys. ys ++ f ∷ []) h

-- A step that queues nothing keeps the functors in order.
same : {xs ys qs : List ℕ} → xs ≡ ys → ys ≡ qs → xs ≡ qs ++ []
same {qs = qs} e h = e ∙ h ∙ sym (append-nil qs)

flags_differ : true ≢ false
flags_differ e = cc

-- While the functors are called, only the queue, the eventfd and the other threads count.
calling-Safe :
    (m n : Machine)
    → is_calling m.phase ≡ true
    → n.event_loop.pending_functors ≡ m.event_loop.pending_functors
    → n.event_loop.woken ≡ m.event_loop.woken
    → n.wakers ≡ m.wakers
    → Safe m
    → Safe n
unfolding is_calling
calling-Safe m n c p w k (busy e) = absurd (flags_differ (sym c ∙ ap is_calling e))
calling-Safe m n c p w k (nothing e) = nothing (p ∙ e)
calling-Safe m n c p w k (awake e) = awake (w ∙ e)
calling-Safe m n c p w k (soon l) = soon (omega (arith, l, k))

step-Holds : {qs fs : List ℕ} {m n : Machine} → Step m fs n → Holds qs m → Holds (qs ++ fs) n
unfolding queue_in_loop taken is_calling
step-Holds (pushed e p xs n f) h = record {
  order = queued_lem xs (taken p) e.pending_functors f h.order;
  flag = h.flag;
  safe = soon (omega arith);
}
step-Holds (woke e p xs n) h = record {
  order = same refl h.order;
  flag = h.flag;
  safe = awake refl;
}
step-Holds (queued_by_channel e xs n f) h = rw (h.flag) (record {
  order = queued_lem xs [] e.pending_functors f h.order;
  flag = refl;
  safe = busy refl;
})
step-Holds (queued_by_functor e xs fs n f) h = rw (h.flag) (record {
  order = queued_lem xs fs e.pending_functors f h.order;
  flag = refl;
  safe = awake refl;
})
step-Holds (polled e xs n) h = record { order = same refl h.order; flag = h.flag; safe = busy refl }
step-Holds (woken_up e xs n) h = record {
  order = same refl h.order;
  flag = h.flag;
  safe = busy refl;
}
step-Holds (swapped e xs n) h = record {
  order = same (ap (λ ys. xs ++ ys) (append-nil e.pending_functors)) h.order;
  flag = refl;
  safe = nothing refl;
}
step-Holds (called e xs fs n f) h = record {
  order = same (append_assoc xs (f ∷ []) (fs ++ e.pending_functors)) h.order;
  flag = h.flag;
  safe = calling-Safe _ _ refl refl refl refl h.safe;
}
step-Holds (finished e xs n) h = record {
  order = same refl h.order;
  flag = refl;
  safe = calling-Safe _ _ refl refl refl refl h.safe;
}

run-Holds : {qs : List ℕ} {m : Machine} → Run new_machine qs m → Holds qs m
unfolding new_machine taken is_calling new_loop
run-Holds (started m) = record { order = refl; flag = refl; safe = nothing refl }
run-Holds (then_step r s) = step-Holds s (run-Holds r)

-- However the threads interleave, the functors that have been called, those that doPendingFunctors
-- holds and those in the queue are the functors queued so far, in this order: each is called once,
-- and none before an earlier one. When the thread of the loop is about to wait for events, the queue
-- is empty, or the eventfd is readable, or a thread that has queued a functor is about to write to it.
pub run_queue :
    (qs : List ℕ) (m : Machine)
    → Run new_machine qs m
    → (m.executed ++ (taken m.phase ++ m.event_loop.pending_functors) ≡ qs) × Safe m
run_queue qs m r = let h = run-Holds r in (h.order, h.safe)
