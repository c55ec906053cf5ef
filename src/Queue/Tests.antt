-- ===== src/Queue/Tests.antt =====
-- Runs of the queue of gateway/task_queue.go, after gateway/task_queue_test.go, and its theorems at
-- these runs.
use agentfactory_gateway.Common.{
  ℕ, String, ◌≡◌, refl, ◌+◌, ◌≤◌, true, none, some, List, [], ◌∷◌, str_dec, count_if, arith,
}
use agentfactory_gateway.Common.Dict.{lookup, insert, delete}
use agentfactory_gateway.Common.Int.{pos, negsuc}
use agentfactory_gateway.Metrics.{reset_metrics}
use agentfactory_gateway.Queue.Task.{
  QueuedTask, TaskStatus, dispatching, running, done, new_queued_task, transition,
}
use agentfactory_gateway.Queue.State.{
  TaskQueueConfig, World, new_task_queue, set_dequeue_callback, count_up, count_down, position_of,
  is_waiting, remove_waiting, is_at_capacity, channel_has_active_task,
}
use agentfactory_gateway.Queue.Methods.{
  append_waiting, enqueue, mark_running, try_dequeue, finish_running, mark_done, release_running,
  release_terminal_task, mark_dispatched, started_directly, register_direct, mark_running_direct,
  nil_task,
}
use agentfactory_gateway.Queue.Sections.{
  Action, enqueues, finishes, registers, releases, apply, Reach, here, next,
}
use agentfactory_gateway.Queue.Safety.{initial, Reach-Inv}
use agentfactory_gateway.Queue.Invariant.{Inv}
use agentfactory_gateway.Queue.Dequeue.{
  Dequeued, IsExclusive, try_dequeue-Dequeued, try_dequeue-IsExclusive,
}
use agentfactory_gateway.Queue.Progress.{IsCapped, mark_done-starts}
use agentfactory_gateway.Queue.Tracking.{tracked, tracked_after, apply-tracked}
use agentfactory_gateway.Queue.Slots.{IsOwed, owed_after, apply-IsOwed}
use agentfactory_gateway.Queue.Gauges.{IsShort}
use agentfactory_gateway.Queue.Enqueue.{Enqueued, enqueue-Enqueued}
use agentfactory_gateway.Queue.Lifecycle.{
  IsTimed, transitions, transitions-IsTimed, stage, accepted, accepted_bounded,
}

-- All that a run computes with.
program : Unit {0}
unfolding lookup insert delete str_dec count_if new_queued_task transition new_task_queue
    reset_metrics count_up count_down position_of is_waiting remove_waiting is_at_capacity
    append_waiting enqueue mark_running try_dequeue finish_running mark_done release_running
    release_terminal_task mark_dispatched register_direct mark_running_direct apply
    channel_has_active_task set_dequeue_callback
program = tt

abbrev config : TaskQueueConfig
config = record { max_concurrent_tasks = pos 5; max_per_channel = pos 1 }

task : String → String → QueuedTask
task id channel = new_queued_task 1 id channel "u1" "do it"

abbrev config_0 : World
config_0 = initial config

-- t1 is registered directly in c1, then t2 for c1 and t3 for c2 are queued.
abbrev act_1 : Action
act_1 = registers 2 (task "t1" "c1")

abbrev act_2 : Action
act_2 = enqueues (some (task "t2" "c1"))

abbrev act_3 : Action
act_3 = enqueues (some (task "t3" "c2"))

one : World
one = apply act_1 config_0

two : World
two = apply act_2 one

three : World
three = apply act_3 two

two-Reach : Reach config_0 two
unfolding program one two task
two-Reach = next act_2 (next act_1 here refl) tt

three-Reach : Reach config_0 three
unfolding three
three-Reach = next act_3 two-Reach tt

-- t3 starts first: c1 is busy.
dequeue_skips : position_of "t3" (try_dequeue 3 three).0 ≡ 0
unfolding program one two three task
dequeue_skips = refl

-- When t1 is done, t2 is handed to the callback.
callback_called :
    (mark_done 3 "t1" (set_dequeue_callback two)).1
    ≡ some (transition 3 (task "t2" "c1") dispatching).0
unfolding program one two task
callback_called = refl

nil_refused : enqueue none three ≡ (three, 0, some nil_task)
unfolding enqueue
nil_refused = refl

defaults :
    new_task_queue (record { max_concurrent_tasks = negsuc 3; max_per_channel = pos 0 })
    ≡ new_task_queue (record { max_concurrent_tasks = pos 5; max_per_channel = pos 1 })
unfolding new_task_queue
defaults = refl

Reach-Inv_example : Inv three
Reach-Inv_example = Reach-Inv config three-Reach

two-Inv : Inv two
two-Inv = Reach-Inv config two-Reach

two-IsExclusive : IsExclusive two
unfolding program one two task
two-IsExclusive c = ground arith

two-IsCapped : IsCapped 5 two
unfolding program one two task
two-IsCapped = record { limit = refl; within = omega arith }

try_dequeue-Dequeued_example : Dequeued 3 three (try_dequeue 3 three).0 (try_dequeue 3 three).1
try_dequeue-Dequeued_example = try_dequeue-Dequeued 3 three Reach-Inv_example

try_dequeue-IsExclusive_example : IsExclusive (try_dequeue 3 two).0
try_dequeue-IsExclusive_example = try_dequeue-IsExclusive 3 two two-Inv two-IsExclusive

mark_done-starts_example :
    (y : QueuedTask) × (is_waiting y.task_id two.waiting ≡ true)
    × ((mark_done 3 "t1" two).0.running
        ≡ insert y.task_id (transition 3 y dispatching).0 (delete "t1" two.running))
unfolding program one two task
mark_done-starts_example =
    mark_done-starts 5 "t1" (started_directly 2 (task "t1" "c1")) (task "t2" "c1") [] [] two two-Inv
      two-IsExclusive two-IsCapped refl refl refl 3

apply-tracked_example :
    tracked "t1" (apply (finishes "t1") two) ≡ tracked_after (finishes "t1") "t1" two
apply-tracked_example = apply-tracked (finishes "t1") "t1" two two-Inv

two-IsOwed : IsOwed "c1" 1 two
unfolding program one two task
two-IsOwed = refl

apply-IsOwed_example :
    IsOwed "c1" (owed_after (releases "t1") "c1" two 1) (apply (releases "t1") two)
apply-IsOwed_example =
    apply-IsOwed (releases "t1") "c1" 1 two two-Inv (λ t e s. omega arith) two-IsOwed

one-IsShort : IsShort 0 two
unfolding program one two task
one-IsShort = refl

enqueue-Enqueued_example :
    Enqueued
      (task "t3" "c2")
      two
      (enqueue (some (task "t3" "c2")) two).0
      (enqueue (some (task "t3" "c2")) two).1
      (enqueue (some (task "t3" "c2")) two).2
enqueue-Enqueued_example = enqueue-Enqueued (task "t3" "c2") two

abbrev steps : List (ℕ × TaskStatus)
steps = (5, running) ∷ (6, dispatching) ∷ (7, running) ∷ (8, done) ∷ []

transitions-IsTimed_example : IsTimed (transitions (new_queued_task 1 "t1" "c1" "u1" "do it") steps)
transitions-IsTimed_example = transitions-IsTimed 1 "t1" "c1" "u1" "do it" steps (omega arith)

accepted_bounded_example : accepted (task "t1" "c1") steps + stage (task "t1" "c1").status ≤ 3
accepted_bounded_example = accepted_bounded (task "t1" "c1") steps
