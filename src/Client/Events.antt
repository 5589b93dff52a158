-- ===== src/Client/Events.antt =====
-- Events of the client: core/module_subject.cpp, core/event.cpp and core/event_manager.cpp.
-- An observer is its address, and a call of one is recorded. The QTimer of EventManager is the caller of
-- OnTimeout; the signal TriggerEvent brings an event to the thread of the windows.
use xx_chat.Base.{
  ℕ, ◌+◌, ◌%◌, ◌^◌, Bool, true, false, ◌&&◌, List, [], ◌∷◌, ◌++◌, leb, ◌==◌, if◌then◌else◌,
}

abbrev pub same_text : List ℕ → List ℕ → Bool
same_text [] [] = true
same_text [] (y ∷ ys) = false
same_text (x ∷ xs) [] = false
same_text (x ∷ xs) (y ∷ ys) = (x == y) && same_text xs ys

-- ModuleSubject: its observers in the order in which they were added.
unfoldable pub add_observer : List ℕ → ℕ → List ℕ
add_observer observers o = observers ++ o ∷ []

unfoldable pub remove_observer : List ℕ → ℕ → List ℕ
remove_observer [] o = []
remove_observer (p ∷ ps) o = let rest = remove_observer ps o in if p == o then rest else p ∷ rest

-- An event: its number, its message, if any, and its bytes.
pub record Event : Type 0 where
  pub event_id : ℕ
  pub pdu : List ℕ
  pub buf : List ℕ

-- What an observer is told: OnNotify with the message, and OnNotify with the bytes.
pub data Notice : Type 0 where
  notify_pdu : (observer event_id : ℕ) → List ℕ → Notice
  notify_data : (observer event_id : ℕ) → List ℕ → Notice

unfoldable pub process : Event → List ℕ → List Notice
process e [] = []
process e (o ∷ os) = notify_pdu o e.event_id e.pdu ∷ notify_data o e.event_id e.buf ∷ process e os

-- AsynNotifyObserver with a message, and with bytes.
abbrev pub pdu_event : ℕ → List ℕ → Event
pdu_event event_id pdu = record { event_id = event_id; pdu = pdu; buf = [] }

abbrev pub data_event : ℕ → List ℕ → Event
data_event event_id bytes = record { event_id = event_id; pdu = []; buf = bytes }

pub record TimerEvent : Type 0 where
  pub timer_event_name : List ℕ
  pub callback : ℕ
  pub interval : ℕ
  pub next_tick : ℕ

abbrev pub has_name : List ℕ → List TimerEvent → Bool
has_name name [] = false
has_name name (t ∷ ts) =
    let rest = has_name name ts in if same_text t.timer_event_name name then true else rest

unfoldable pub register_timer_event : List TimerEvent → TimerEvent → List TimerEvent
register_timer_event ts t = if has_name t.timer_event_name ts then ts else ts ++ t ∷ []

-- The first one with the name goes.
unfoldable pub unregister_timer_event : List TimerEvent → List ℕ → List TimerEvent
unregister_timer_event [] name = []
unregister_timer_event (t ∷ ts) name =
    let rest = unregister_timer_event ts name in
    if same_text t.timer_event_name name then ts else t ∷ rest

-- OnTimeout: the timers after it, and the callbacks it calls. A callback does not change the list.
unfoldable pub on_timeout : ℕ → List TimerEvent → List TimerEvent × List ℕ
on_timeout now [] = ([], [])
on_timeout now (t ∷ ts) =
    let (ts', fired) = on_timeout now ts in
    if leb t.next_tick now
    then (record t { next_tick = (now + t.interval) % 2 ^ 64 } ∷ ts', t.callback ∷ fired)
    else (t ∷ ts', fired)
