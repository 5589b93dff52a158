-- ===== src/Proxy/Workers.antt =====
-- The threads that run the tasks: WorkThread and ThreadPool of xx_chat_server/src/base/thread.cpp and
-- thread_pool.cpp.
-- A task is of any type `T`. A turn of a thread is what it does under one hold of its mutex, up to the end
-- of a task or to the wait; other calls come in any order between the turns.
use xx_chat.Base.{
  ℕ, ◌≡◌, refl, sym, ap, ap₂, ◌∙◌, Bool, true, false, Option, none, some, List, [], ◌∷◌, ◌++◌,
  get_elem?, set, if◌then◌else◌, if_cases, append_assoc, append-nil,
}
use xx_chat.Base.Options.{found}

-- Before the test of started_, in the wait, and after the loop.
pub data Phase : Type 0 where
  ready waiting ended : Phase

pub record WorkThread (T : Type 0) : Type 0 where
  pub phase : Phase
  pub started : Bool
  pub task_list : List T
  -- the tasks that have run, the oldest first
  pub ran : List T

module _ {T : Type 0} where
  -- The new thread is before its first test; a thread that is started is not started again.
  unfoldable pub start : WorkThread T → WorkThread T
  start w = if w.started then w else record w { started = true; phase = ready }

  unfoldable pub push_task : T → WorkThread T → WorkThread T
  push_task t w = record w { task_list = w.task_list ++ t ∷ [] }

  -- `Stop` up to the join, which returns when the phase is `ended`.
  unfoldable pub stop : WorkThread T → WorkThread T
  stop w = record w { started = false }

  -- From the inner loop on, with the list of tasks.
  unfoldable pub take_task : List T → WorkThread T → WorkThread T
  take_task [] w = record w { phase = waiting }
  take_task (t ∷ more) w = record w { phase = ready; task_list = more; ran = w.ran ++ t ∷ [] }

  -- A turn; that of a waiting thread is a wake-up, with or without a reason.
  unfoldable pub run_in_thread : WorkThread T → WorkThread T
  unfolding take_task
  run_in_thread w = elim w.phase [
    | ready ↦ if w.started then take_task w.task_list w else record w { phase = ended }
    | waiting ↦ take_task w.task_list w
    | ended ↦ w
  ]

  -- ThreadPool::AddTask: `thread_index` is the random number; `at` throws without threads.
  unfoldable pub add_task : ℕ → T → List (WorkThread T) → Option (List (WorkThread T))
  unfolding push_task
  add_task thread_index t threads =
      found (get_elem? threads thread_index) none
        (λ w. some (set threads thread_index (push_task t w)))

-- What happens to a thread.
pub data ThreadEvent (T : Type 0) : Type 0 where
  pushes : T → ThreadEvent T
  turns stops : ThreadEvent T

abbrev pub pushed : {T : Type 0} → List (ThreadEvent T) → List T
pushed [] = []
pushed (pushes t ∷ es) = t ∷ pushed es
pushed (turns ∷ es) = pushed es
pushed (stops ∷ es) = pushed es

module _ {T : Type 0} where
  unfoldable pub apply : ThreadEvent T → WorkThread T → WorkThread T
  unfolding push_task run_in_thread stop
  apply (pushes t) w = push_task t w
  apply turns w = run_in_thread w
  apply stops w = stop w

  unfoldable pub run : List (ThreadEvent T) → WorkThread T → WorkThread T
  unfolding apply
  run [] w = w
  run (e ∷ es) w = run es (apply e w)

  -- All tasks of a thread, those that have run first.
  abbrev pub tasks : WorkThread T → List T
  tasks w = w.ran ++ w.task_list

  take_task-tasks :
      (l : List T) (w : WorkThread T) → w.task_list ≡ l → tasks (take_task l w) ≡ tasks w
  unfolding take_task
  take_task-tasks [] w e = refl
  take_task-tasks (t ∷ more) w e = append_assoc w.ran (t ∷ []) more ∙ ap (λ l. w.ran ++ l) (sym e)

  run_in_thread-tasks : (w : WorkThread T) → tasks (run_in_thread w) ≡ tasks w
  unfolding run_in_thread
  run_in_thread-tasks w =
      elim w.phase
        as (λ p.
          tasks (elim p [
            | ready ↦ if w.started then take_task w.task_list w else record w { phase = ended }
            | waiting ↦ take_task w.task_list w
            | ended ↦ w
          ])
          ≡ tasks w) [
            | ready ↦
                if_cases (λ v. tasks v ≡ tasks w) w.started
                  (λ e. take_task-tasks w.task_list w refl) (λ e. refl)
            | waiting ↦ take_task-tasks w.task_list w refl
            | ended ↦ refl
          ]

  apply-tasks :
      (e : ThreadEvent T) (es : List (ThreadEvent T)) (w : WorkThread T)
      → tasks (apply e w) ++ pushed es ≡ tasks w ++ pushed (e ∷ es)
  unfolding apply push_task stop
  apply-tasks (pushes t) es w =
      ap (λ l. l ++ pushed es) (sym (append_assoc w.ran w.task_list (t ∷ [])))
      ∙ append_assoc (tasks w) (t ∷ []) (pushed es)
  apply-tasks turns es w = ap (λ l. l ++ pushed es) (run_in_thread-tasks w)
  apply-tasks stops es w = refl

  -- Whatever the calls of PushTask, the turns of the thread and its Stop, in any order: the tasks that have
  -- run and then those that wait are those from before and then, in order, the tasks pushed, none lost
  -- and none twice.
  pub run-tasks :
      (es : List (ThreadEvent T)) (w : WorkThread T) → tasks (run es w) ≡ tasks w ++ pushed es
  unfolding run
  run-tasks [] w = sym (append-nil (tasks w))
  run-tasks (e ∷ es) w = run-tasks es (apply e w) ∙ apply-tasks e es w

  -- A thread that waits without a task.
  pub record IsIdle (w : WorkThread T) : Type 0 where
    pub waits : w.phase ≡ waiting
    pub empty : w.task_list ≡ []

  -- Such a thread after Stop.
  abbrev stopped : List T → WorkThread T
  stopped done = record { phase = waiting; started = false; task_list = []; ran = done }

  stop-stopped : (w : WorkThread T) → IsIdle w → stop w ≡ stopped w.ran
  unfolding stop
  stop-stopped w i =
      ap₂ (λ p l. record { phase = p; started = false; task_list = l; ran = w.ran }) i.waits i.empty

  run-stopped :
      (es : List (ThreadEvent T)) (done : List T)
      → pushed es ≡ []
      → run es (stopped done) ≡ stopped done
  unfolding run apply run_in_thread take_task stop
  run-stopped [] done n = refl
  run-stopped (pushes t ∷ es) done n = absurd cc
  run-stopped (turns ∷ es) done n = run-stopped es done n
  run-stopped (stops ∷ es) done n = run-stopped es done n

  run-append :
      (es fs : List (ThreadEvent T)) (w : WorkThread T) → run (es ++ fs) w ≡ run fs (run es w)
  unfolding run
  run-append [] fs w = refl
  run-append (e ∷ es) fs w = run-append es fs (apply e w)

  -- After Stop of a thread that waits without a task, no wake-ups and no further calls of Stop end the
  -- thread, so that the join of Stop does not return: the wait goes on as long as there is no task, and
  -- does not look at started_. Only when a task is pushed the thread leaves the wait; it runs the task
  -- and then ends.
  pub stop_lem :
      (es : List (ThreadEvent T)) (w : WorkThread T) (t : T)
      → IsIdle w
      → pushed es ≡ []
      → let late = run (es ++ pushes t ∷ turns ∷ turns ∷ []) (stop w) in
        ((run es (stop w)).phase ≡ waiting) × (late.phase ≡ ended) × (late.ran ≡ w.ran ++ t ∷ [])
  unfolding run apply push_task run_in_thread take_task
  stop_lem es w t i n =
      let waits : run es (stop w) ≡ stopped w.ran =
        ap (run es) (stop-stopped w i) ∙ run-stopped es w.ran n in
      let fs = pushes t ∷ turns ∷ turns ∷ [] in
      let ends : run (es ++ fs) (stop w) ≡ run fs (stopped w.ran) =
        run-append es fs (stop w) ∙ ap (run fs) waits in
      (ap (λ v. v.phase) waits, ap (λ v. v.phase) ends, ap (λ v. v.ran) ends)
