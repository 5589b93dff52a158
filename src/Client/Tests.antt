-- ===== src/Client/Tests.antt =====
-- The client on concrete values.
use xx_chat.Base.{◌≡◌, refl, true, false, none, [], ◌∷◌}
use xx_chat.Client.Operations.{
  OperationManager, about_to_wait, waiting, start_operation, shutdown, work_n, start_operation_lost,
}
use xx_chat.Client.Events.{notify_pdu, notify_data, process, remove_observer}
use xx_chat.Client.HttpPool.{init_pool, push_to_pool}

-- The thread has found the queue empty, and is about to wait.
abbrev empty_queue : OperationManager
empty_queue = record {
  realtime_operations = [];
  running = true;
  phase = about_to_wait;
  processed = 1 ∷ [];
}

start_operation_lost_example :
    let started = work_n 3 (start_operation empty_queue 9) in
    let down = work_n 3 (shutdown empty_queue) in
    (started.phase ≡ waiting)
    × (started.realtime_operations ≡ 9 ∷ [])
    × (started.processed ≡ 1 ∷ [])
    × (down.phase ≡ waiting)
    × (down.running ≡ false)
start_operation_lost_example = start_operation_lost empty_queue 9 2 refl

-- Both observers are told of an event, in the order in which they were added.
told :
    process
      (record { event_id = 3; pdu = 5 ∷ []; buf = [] })
      (remove_observer (7 ∷ 8 ∷ 7 ∷ 9 ∷ []) 7)
    ≡ notify_pdu 8 3 (5 ∷ [])
      ∷ notify_data 8 3 []
      ∷ notify_pdu 9 3 (5 ∷ [])
      ∷ notify_data 9 3 []
      ∷ []
unfolding process remove_observer
told = refl

-- There is no fifth thread.
no_thread : push_to_pool init_pool 4 1 true ≡ none
unfolding push_to_pool init_pool
no_thread = refl
