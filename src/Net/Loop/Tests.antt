-- ===== src/Net/Loop/Tests.antt =====
-- The event loop on concrete values.
use xx_chat.Base.{◌≡◌, refl, true, false, some, [], ◌∷◌, ◌++◌}
use xx_chat.Net.Loop.{
  EventLoop, new_loop, queue_in_loop, begin_pending, EventLoopThreadPool, get_next_loop,
}
use xx_chat.Net.Loop.Interleaving.{
  Machine, Run, new_machine, started, then_step, pushed, polled, woke, swapped, called, taken, Safe,
  run_queue, polling, calling,
}

-- Another thread queues 7, and the loop takes it over and calls it before the thread wakes it.
abbrev turned : Machine
turned = record {
  event_loop = record {
    pending_functors = [];
    calling_pending_functors = true;
    woken = true;
    looping = false;
    quit = false;
    event_handling = false;
  };
  phase = calling [];
  executed = 7 ∷ [];
  wakers = 0;
}

-- The loop at first, and while the functor waits.
abbrev fresh : EventLoop
fresh = record {
  pending_functors = [];
  calling_pending_functors = false;
  woken = false;
  looping = false;
  quit = false;
  event_handling = false;
}

abbrev queued : EventLoop
queued = record fresh { pending_functors = 7 ∷ [] }

turned_run : Run new_machine (7 ∷ []) turned
unfolding new_machine new_loop queue_in_loop
turned_run =
    then_step
      (then_step
        (then_step
          (then_step (then_step (started _) (pushed fresh polling [] 0 7)) (polled queued [] 1))
          (swapped queued [] 1))
        (called (begin_pending queued) [] [] 1 7))
      (woke (begin_pending queued) (calling []) (7 ∷ []) 0)

run_queue_example :
    (turned.executed ++ (taken turned.phase ++ turned.event_loop.pending_functors) ≡ 7 ∷ [])
    × Safe turned
run_queue_example = run_queue (7 ∷ []) turned turned_run

-- Two loops take turns.
abbrev pool : EventLoopThreadPool
pool = record { base_loop = 0; started = true; thread_num = 2; next = 1; loops = 4 ∷ 5 ∷ [] }

wraps : get_next_loop pool ≡ some (5, record pool { next = 0 })
unfolding get_next_loop
wraps = refl
