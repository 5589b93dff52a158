-- ===== src/Client/Operations.antt =====
-- OperationManager of the client, core/operation_manager.cpp: a thread that
-- takes operations out of a queue.
-- An operation is a number. A step of the thread is what it does up to the next point where another
-- thread can come in between. A condition variable wakes nobody who does not wait, and no one wakes
-- without being notified.
use xx_chat.Base.{
  ℕ, zero, suc, ◌≡◌, refl, sym, ap, ◌∙◌, Bool, true, false, List, [], ◌∷◌, ◌++◌, length, ◌==◌,
  if◌then◌else◌, append_assoc, if_cases,
}

-- Where the thread is: before the test of the queue, behind it with an empty queue, in cv_.wait, before
-- it takes an operation, with an operation, or at its end.
pub data Phase : Type 0 where
  testing about_to_wait waiting taking : Phase
  processing : ℕ → Phase
  stopped : Phase

pub record OperationManager : Type 0 where
  pub realtime_operations : List ℕ
  pub running : Bool
  pub phase : Phase
  pub processed : List ℕ

unfoldable pub new_operation_manager : OperationManager
new_operation_manager = record {
  realtime_operations = [];
  running = true;
  phase = testing;
  processed = [];
}

-- notify_one
abbrev pub notified : Phase → Phase
notified testing = testing
notified about_to_wait = about_to_wait
notified waiting = testing
notified taking = taking
notified (processing op) = processing op
notified stopped = stopped

unfoldable pub start_operation : OperationManager → ℕ → OperationManager
start_operation m op = record m {
  realtime_operations = m.realtime_operations ++ op ∷ [];
  phase = notified m.phase;
}

-- Shutdown up to the join, which returns when the phase is `stopped`.
unfoldable pub shutdown : OperationManager → OperationManager
shutdown m = record m { running = false; phase = notified m.phase }

-- The end of Shutdown, after the join.
unfoldable pub joined : OperationManager → OperationManager
joined m = record m { realtime_operations = [] }

-- Behind the test of the queue.
abbrev pub tested : OperationManager → OperationManager
tested m =
    if length m.realtime_operations == 0
    then record m { phase = if m.running then about_to_wait else stopped }
    else record m { phase = if m.running then taking else stopped }

abbrev pub take_front : OperationManager → List ℕ → OperationManager
take_front m [] = record m { phase = testing }
take_front m (op ∷ ops) = record m {
  realtime_operations = ops;
  phase = if m.running then processing op else stopped;
}

-- The next step of the thread that Startup starts.
unfoldable pub work : OperationManager → Phase → OperationManager
work m testing = tested m
work m about_to_wait = record m { phase = waiting }
work m waiting = m
work m taking = take_front m m.realtime_operations
work m (processing op) = record m {
  processed = m.processed ++ op ∷ [];
  phase = if m.running then testing else stopped;
}
work m stopped = m

unfoldable pub work_n : ℕ → OperationManager → OperationManager
unfolding work
work_n zero m = m
work_n (suc n) m = work_n n (work m m.phase)

asleep : (n : ℕ) (m : OperationManager) → m.phase ≡ waiting → work_n n m ≡ m
unfolding work_n work
asleep zero m e = refl
asleep (suc n) m e = ap (λ p. work_n n (work m p)) e ∙ asleep n m e

falls_asleep :
    (n : ℕ) (m : OperationManager)
    → m.phase ≡ about_to_wait
    → work_n (suc n) m ≡ record m { phase = waiting }
unfolding work_n work
falls_asleep n m e = ap (λ p. work_n n (work m p)) e ∙ asleep n (record m { phase = waiting }) refl

-- An operation that is started after the thread has found the queue empty and before it waits is not
-- processed, however many steps the thread has: it waits, with the operation in the queue. A Shutdown
-- that comes then waits for ever, since the thread never stops. The queue is pushed and its condition
-- notified under operationMutex_, which the thread does not hold there.
pub start_operation_lost :
    (m : OperationManager) (op n : ℕ)
    → m.phase ≡ about_to_wait
    → let started = work_n (suc n) (start_operation m op) in
      let down = work_n (suc n) (shutdown m) in
      (started.phase ≡ waiting)
      × (started.realtime_operations ≡ m.realtime_operations ++ op ∷ [])
      × (started.processed ≡ m.processed)
      × (down.phase ≡ waiting)
      × (down.running ≡ false)
unfolding start_operation shutdown
start_operation_lost m op n e =
    let s = falls_asleep n (start_operation m op) (ap notified e) in
    let d = falls_asleep n (shutdown m) (ap notified e) in
    (
      ap (λ k. k.phase) s,
      ap (λ k. k.realtime_operations) s,
      ap (λ k. k.processed) s,
      ap (λ k. k.phase) d,
      ap (λ k. k.running) d,
    )

-- The operations in the hands of the thread.
pub held : Phase → List ℕ
held (processing op) = op ∷ []
held _ = []

-- What has been started, in order, as long as the manager runs.
pub log : OperationManager → List ℕ
log m = m.processed ++ (held m.phase ++ m.realtime_operations)

held-notified : (p : Phase) → held (notified p) ≡ held p
unfolding held
held-notified testing = refl
held-notified about_to_wait = refl
held-notified waiting = refl
held-notified taking = refl
held-notified (processing op) = refl
held-notified stopped = refl

-- Starting an operation puts it behind all that were started before.
pub log-start_operation :
    (m : OperationManager) (op : ℕ) → log (start_operation m op) ≡ log m ++ op ∷ []
unfolding log start_operation
log-start_operation m op =
    ap (λ ys. m.processed ++ (ys ++ (m.realtime_operations ++ op ∷ []))) (held-notified m.phase)
    ∙ ap (λ ys. m.processed ++ ys)
        (sym (append_assoc (held m.phase) m.realtime_operations (op ∷ [])))
    ∙ sym (append_assoc m.processed (held m.phase ++ m.realtime_operations) (op ∷ []))

log_at :
    (m : OperationManager) (p : Phase)
    → m.phase ≡ p
    → log m ≡ m.processed ++ (held p ++ m.realtime_operations)
unfolding log
log_at m p e = ap (λ q. m.processed ++ (held q ++ m.realtime_operations)) e

log-tested : (m : OperationManager) → log (tested m) ≡ m.processed ++ m.realtime_operations
unfolding log held
log-tested m =
    let all = m.processed ++ m.realtime_operations in
    if_cases (λ (r : OperationManager). log r ≡ all) (length m.realtime_operations == 0)
      (λ _.
        if_cases (λ (p : Phase). m.processed ++ (held p ++ m.realtime_operations) ≡ all) m.running
          (λ _. refl) (λ _. refl))
      (λ _.
        if_cases (λ (p : Phase). m.processed ++ (held p ++ m.realtime_operations) ≡ all) m.running
          (λ _. refl) (λ _. refl))

log-take_front :
    (m : OperationManager) (ops : List ℕ)
    → m.realtime_operations ≡ ops
    → m.running ≡ true
    → log (take_front m ops) ≡ m.processed ++ m.realtime_operations
unfolding log held
log-take_front m [] e r = refl
log-take_front m (op ∷ ops) e r = rw r (ap (λ ys. m.processed ++ ys) (sym e))

-- A step of the thread loses no operation, doubles none and keeps the order.
pub log-work : (m : OperationManager) → m.running ≡ true → log (work m m.phase) ≡ log m
unfolding log work held
log-work m r = go m.phase refl
  where
    go : (p : Phase) → m.phase ≡ p → log (work m p) ≡ log m
    go testing e = log-tested m ∙ sym (log_at m testing e)
    go about_to_wait e = sym (log_at m about_to_wait e)
    go waiting e = refl
    go taking e = log-take_front m m.realtime_operations refl r ∙ sym (log_at m taking e)
    go (processing op) e =
        rw r (append_assoc m.processed (op ∷ []) m.realtime_operations)
        ∙ sym (log_at m (processing op) e)
    go stopped e = refl
