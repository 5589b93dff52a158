-- ===== src/Net/Loop.antt =====
-- The class EventLoop of xx_chat_server/src/net/event_loop.h and event_loop.cpp: its queue of functors,
-- filled by all threads, and its turns; and EventLoopThreadPool of event_loop_thread_pool.cpp.
-- A functor is a number, and `run` says what calling it does. `woken` says whether the eventfd can be
-- read. `none` is a failed assert. What a mutex guards is one step.
pub mod Interleaving
mod Tests
use xx_chat.Base.{
  ℕ, suc, ◌+◌, ◌-◌, Bool, true, false, not, ◌&&◌, ◌||◌, Option, none, some, List, [], ◌∷◌, ◌++◌,
  length, leb, ltb, ◌==◌, if◌then◌else◌, get_or,
}
use xx_chat.Base.Options.{◌>>=◌, ◌>>◌, assert, found}

pub record EventLoop : Type 0 where
  pub pending_functors : List ℕ
  pub calling_pending_functors : Bool
  pub woken : Bool
  pub looping : Bool
  pub quit : Bool
  pub event_handling : Bool

unfoldable pub new_loop : EventLoop
new_loop = record {
  pending_functors = [];
  calling_pending_functors = false;
  woken = false;
  looping = false;
  quit = false;
  event_handling = false;
}

abbrev pub wakeup : EventLoop → EventLoop
wakeup e = record e { woken = true }

-- The read callback of the eventfd.
abbrev pub handle_read : EventLoop → EventLoop
handle_read e = record e { woken = false }

-- What queueInLoop does under its mutex.
abbrev pub push : EventLoop → ℕ → EventLoop
push e f = record e { pending_functors = e.pending_functors ++ f ∷ [] }

-- `in_thread`: whether the thread of the loop calls.
unfoldable pub queue_in_loop : EventLoop → Bool → ℕ → EventLoop
queue_in_loop e in_thread f =
    let e' = push e f in if not in_thread || e.calling_pending_functors then wakeup e' else e'

unfoldable pub run_in_loop : (ℕ → EventLoop → EventLoop) → EventLoop → Bool → ℕ → EventLoop
unfolding queue_in_loop
run_in_loop run e in_thread f = if in_thread then run f e else queue_in_loop e in_thread f

unfoldable pub quit_loop : EventLoop → Bool → EventLoop
quit_loop e in_thread =
    let e' : EventLoop = record e { quit = true } in if in_thread then e' else wakeup e'

-- doPendingFunctors takes the queue over, and gives it back empty to be filled.
abbrev pub begin_pending : EventLoop → EventLoop
begin_pending e = record e { calling_pending_functors = true; pending_functors = [] }

abbrev pub end_pending : EventLoop → EventLoop
end_pending e = record e { calling_pending_functors = false }

-- The functors, in order.
unfoldable pub call_each : (ℕ → EventLoop → EventLoop) → List ℕ → EventLoop → EventLoop
call_each run [] e = e
call_each run (f ∷ fs) e = call_each run fs (run f e)

unfoldable pub do_pending_functors : (ℕ → EventLoop → EventLoop) → EventLoop → EventLoop
unfolding call_each
do_pending_functors run e = end_pending (call_each run e.pending_functors (begin_pending e))

-- A turn of the loop: `handle` is what the active channels do to it.
unfoldable pub turn : (ℕ → EventLoop → EventLoop) → (EventLoop → EventLoop) → EventLoop → EventLoop
unfolding do_pending_functors
turn run handle e =
    let e1 = handle (record e { event_handling = true }) in
    do_pending_functors run (record e1 { event_handling = false })

-- The turns until quit, at most those that are given.
unfoldable pub turns :
    (ℕ → EventLoop → EventLoop) → List (EventLoop → EventLoop) → EventLoop → EventLoop
unfolding turn
turns run [] e = e
turns run (h ∷ hs) e = if e.quit then e else turns run hs (turn run h e)

unfoldable pub loop :
    (ℕ → EventLoop → EventLoop) → List (EventLoop → EventLoop) → EventLoop → Option EventLoop
unfolding turns
loop run handles e = do
  assert (not e.looping)
  let e' = turns run handles (record e { looping = true; quit = false })
  some (record e' { looping = false })

-- EventLoopThreadPool: loops are numbers.
pub record EventLoopThreadPool : Type 0 where
  pub base_loop : ℕ
  pub started : Bool
  pub thread_num : ℕ
  pub next : ℕ
  pub loops : List ℕ

-- `new_loops`: the loops of the threads that it starts.
unfoldable pub start : EventLoopThreadPool → List ℕ → Option EventLoopThreadPool
start p new_loops = do
  assert (not p.started)
  some (record p { started = true; loops = p.loops ++ new_loops })

unfoldable pub get_next_loop : EventLoopThreadPool → Option (ℕ × EventLoopThreadPool)
get_next_loop p = do
  assert p.started
  let n = if leb (length p.loops) (p.next + 1) then 0 else p.next + 1
  some (
      if length p.loops == 0 then (p.base_loop, p) else (nth p.loops p.next, record p { next = n }))
  where
    nth : List ℕ → ℕ → ℕ
    nth [] i = p.base_loop
    nth (l ∷ ls) i = let rest = nth ls (i - 1) in if i == 0 then l else rest

unfoldable pub get_all_event_loops : EventLoopThreadPool → Option (List ℕ)
get_all_event_loops p = do
  assert p.started
  some (if length p.loops == 0 then p.base_loop ∷ [] else p.loops)
