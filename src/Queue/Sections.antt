-- ===== src/Queue/Sections.antt =====
-- gateway/task_queue.go as a system of critical sections. Every method takes the mutex; MarkDone,
-- MarkError and releaseTerminalTask release it before tryDequeue takes it again, so other goroutines
-- come between. An `Action` is one critical section, `Reach` is any interleaving of them.
use agentfactory_gateway.Common.{ℕ, String, ◌≡◌, false, Option, none, some}
use agentfactory_gateway.Common.Dict.{lookup}
use agentfactory_gateway.Queue.Task.{QueuedTask}
use agentfactory_gateway.Queue.State.{World, is_waiting}
use agentfactory_gateway.Queue.Methods.{
  enqueue, mark_running, finish_running, try_dequeue, release_running, mark_dispatched,
  mark_running_direct,
}

pub data Action : Type 0 where
  enqueues : Option QueuedTask → Action
  marks_running : ℕ → String → Action
  finishes : String → Action
  dequeues : ℕ → Action
  releases : String → Action
  marks_dispatched : ℕ → String → Action
  registers : ℕ → QueuedTask → Action

-- The first critical section of releaseTerminalTask.
unfoldable pub release : String → World → World
release id w = elim (lookup id w.running) [ none ↦ w | some task ↦ release_running id task w ]

unfoldable pub apply : Action → World → World
apply (enqueues task) w = (enqueue task w).0
apply (marks_running now id) w = (mark_running now id w).0
apply (finishes id) w = finish_running id w
apply (dequeues now) w = (try_dequeue now w).0
apply (releases id) w = release id w
apply (marks_dispatched now id) w = (mark_dispatched now id w).0
apply (registers now task) w = mark_running_direct now task w

-- A task is registered directly only under an id that does not wait.
abbrev pub Allowed : Action → World → Type 0
Allowed (registers now task) w = is_waiting task.task_id w.waiting ≡ false
Allowed _ w = Unit

pub data Reach (w : World) : World → Type 0 where
  here : Reach w w
  next : {v : World} (a : Action) → Reach w v → Allowed a v → Reach w (apply a v)
