-- ===== src/Client/HttpPool.antt =====
-- HttpPoolModule and HttpThread of the client, core/http_pool_module.cpp.
-- An operation is a number. Random chooses the thread. What RunInThread does while it holds the mutex is
-- one step: it tests the queue and waits, or takes an operation and processes it.
use xx_chat.Base.{
  ℕ, ◌-◌, Bool, true, false, Option, none, some, List, [], ◌∷◌, ◌++◌, ◌==◌, if◌then◌else◌,
}
use xx_chat.Base.Options.{found}

pub data ThreadState : Type 0 where
  running waiting ended : ThreadState

pub record HttpThread : Type 0 where
  pub started : Bool
  pub lst_http_operations : List ℕ
  pub thread_state : ThreadState
  pub processed : List ℕ

unfoldable pub new_http_thread : HttpThread
new_http_thread = record {
  started = true;
  lst_http_operations = [];
  thread_state = running;
  processed = [];
}

abbrev pub notified : ThreadState → ThreadState
notified running = running
notified waiting = running
notified ended = ended

unfoldable pub push_http_operation : HttpThread → ℕ → Bool → HttpThread
push_http_operation t operation high_priority = record t {
  lst_http_operations =
      if high_priority
      then operation ∷ t.lst_http_operations
      else t.lst_http_operations ++ operation ∷ [];
  thread_state = notified t.thread_state;
}

abbrev pub take_front : HttpThread → List ℕ → HttpThread
take_front t [] = record t { thread_state = if t.started then waiting else ended }
take_front t (op ∷ ops) = record t {
  lst_http_operations = ops;
  processed = t.processed ++ op ∷ [];
  thread_state = if t.started then running else ended;
}

-- The next step of RunInThread.
unfoldable pub run_in_thread : HttpThread → ThreadState → HttpThread
run_in_thread t running = take_front t t.lst_http_operations
run_in_thread t waiting = t
run_in_thread t ended = t

-- Stop up to the join, and after it.
unfoldable pub stop : HttpThread → HttpThread
stop t = record t { started = false; thread_state = notified t.thread_state }

unfoldable pub joined : HttpThread → HttpThread
joined t = record t { lst_http_operations = [] }

-- `httpThreads_.at(i)` and the push to it; `none` is the exception.
abbrev pub push_at : List HttpThread → ℕ → ℕ → Bool → Option (List HttpThread)
push_at [] i operation high_priority = none
push_at (t ∷ ts) i operation high_priority =
    let rest = push_at ts (i - 1) operation high_priority in
    if i == 0
    then some (push_http_operation t operation high_priority ∷ ts)
    else found rest none (λ us. some (t ∷ us))

-- Four threads.
unfoldable pub init_pool : List HttpThread
unfolding new_http_thread
init_pool = new_http_thread ∷ new_http_thread ∷ new_http_thread ∷ new_http_thread ∷ []

-- `random`: the index that Random returns, at most the last one.
unfoldable pub push_to_pool : List HttpThread → ℕ → ℕ → Bool → Option (List HttpThread)
unfolding push_http_operation
push_to_pool threads random operation high_priority = push_at threads random operation high_priority
