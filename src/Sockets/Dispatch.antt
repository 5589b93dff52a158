-- ===== src/Sockets/Dispatch.antt =====
-- The event loop of EventDispatch, xx_chat_server/src/base/event_dispatch.cpp, with epoll.
-- What epoll_wait and the clock return is an argument. A callback of a timer or of the loop is a
-- number, and `tick` says what it does to the sockets. A socket that a callback closes is still called
-- for the rest of its event, since the loop holds it.
use xx_chat.Base.{ℕ, ◌/◌, ◌%◌, Bool, true, ◌||◌, Option, some, List, [], ◌∷◌, ◌==◌, if◌then◌else◌}
use xx_chat.Base.Options.{◌>>=◌, found}
use xx_chat.Sockets.{System, Run, Accepted, find_base_socket, on_read, on_write, on_close}
use xx_chat.Sockets.Timers.{EventDispatch, check_timer}

-- An event: the descriptor, the bits, and what the calls on the descriptor will return.
pub record Ready : Type 0 where
  pub fd : ℕ
  pub events : ℕ
  pub avail : Option ℕ
  pub error : ℕ
  pub pending : List Accepted

abbrev pub epoll_in : ℕ
epoll_in = 1

abbrev pub epoll_pri : ℕ
epoll_pri = 2

abbrev pub epoll_out : ℕ
epoll_out = 4

abbrev pub epoll_err : ℕ
epoll_err = 8

abbrev pub epoll_hup : ℕ
epoll_hup = 16

abbrev pub epoll_rdhup : ℕ
epoll_rdhup = 8192

abbrev has : ℕ → ℕ → Bool
has events bit = (events / bit) % 2 == 1

abbrev pub when : Bool → (System → Option System) → System → Option System
when b f sys = if b then f sys else some sys

unfoldable pub dispatch_event : Run → System → Ready → Option System
unfolding find_base_socket on_read on_write on_close
dispatch_event run sys e = found (find_base_socket sys e.fd) (some sys) (λ a. do
  s1 ← when (has e.events epoll_rdhup) (λ s. on_close run s a) sys
  s2 ← when (has e.events epoll_in) (λ s. on_read run s a e.avail e.pending) s1
  s3 ← when (has e.events epoll_out) (λ s. on_write run s a e.error) s2
  when (has e.events epoll_pri || has e.events epoll_err || has e.events epoll_hup)
      (λ s. on_close run s a) s3)

unfoldable pub dispatch_events : Run → System → List Ready → Option System
unfolding dispatch_event
dispatch_events run sys [] = some sys
dispatch_events run sys (e ∷ es) = dispatch_event run sys e >>= λ sys'. dispatch_events run sys' es

-- The callbacks of CheckTimer or CheckLoop, in order.
unfoldable pub call_all : (ℕ → System → Option System) → List ℕ → System → Option System
call_all tick [] sys = some sys
call_all tick (k ∷ ks) sys = tick k sys >>= λ sys'. call_all tick ks sys'

-- One turn of the loop.
pub record Turn : Type 0 where
  pub events : List Ready
  pub now : ℕ

unfoldable pub turn :
    Run
    → (ℕ → System → Option System)
    → EventDispatch × System
    → Turn
    → Option (EventDispatch × System)
unfolding dispatch_events check_timer call_all
turn run tick (d, sys) t = do
  s1 ← dispatch_events run sys t.events
  let (d', fired) = check_timer d t.now
  s2 ← call_all tick fired s1
  s3 ← call_all tick d'.loop_list s2
  some (d', s3)

unfoldable pub turns :
    Run
    → (ℕ → System → Option System)
    → EventDispatch × System
    → List Turn
    → Option (EventDispatch × System)
unfolding turn
turns run tick s [] = some s
turns run tick s (t ∷ ts) = turn run tick s t >>= λ s'. turns run tick s' ts

-- The turns until StopDispatch. A loop that runs already is not started again.
unfoldable pub start_dispatch :
    Run
    → (ℕ → System → Option System)
    → EventDispatch × System
    → List Turn
    → Option (EventDispatch × System)
unfolding turns
start_dispatch run tick (d, sys) ts =
    if d.running then some (d, sys) else turns run tick (record d { running = true }, sys) ts
