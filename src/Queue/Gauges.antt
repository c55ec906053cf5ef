-- ===== src/Queue/Gauges.antt =====
-- gateway/task_queue.go and gateway/metrics.go: the gauge of active tasks against the running map.
use agentfactory_gateway.Common.{
  ℕ, suc, ◌+◌, ◌%◌, String, ◌≡◌, ap, inl, inr, none, some, length, arith,
}
use agentfactory_gateway.Common.Dict.{
  lookup, length-insert_new, length-delete_present, delete_absent,
}
use agentfactory_gateway.Metrics.{int64_mod}
use agentfactory_gateway.Queue.Task.{QueuedTask, dispatching, transition}
use agentfactory_gateway.Queue.State.{World}
use agentfactory_gateway.Queue.Methods.{try_dequeue, finish_running, mark_done}
use agentfactory_gateway.Queue.Cases.{try_dequeue_cases}
use agentfactory_gateway.Queue.Invariant.{Inv, finish_running-Inv}
use agentfactory_gateway.Queue.Dequeue.{waits_not_runs}

-- The gauge activeTasks is `d` less than the number of running tasks, modulo 2^64.
abbrev pub IsShort : ℕ → World → Type 0
IsShort d w = (w.metrics.active_tasks + d) % int64_mod ≡ length w.running % int64_mod

try_dequeue-IsShort :
    (d now : ℕ) (w : World) → Inv w → IsShort d w → IsShort d (try_dequeue now w).0
try_dequeue-IsShort d now w v h = elim (try_dequeue_cases now w v.waiting_unique) [
  | inl (e, _) ↦ rw e h
  | inr (x, c, e) ↦ rw e.0 (
      omega (
        arith,
        h,
        length-insert_new x.task_id (transition now x dispatching).0 w.running
            (waits_not_runs w x c.before c.after v c.was),
      ))
]

-- MarkDone of a running task on a valid queue keeps the gap between the gauge of active tasks and
-- the number of running ones: the gauge stays right if it was right.
pub mark_done-IsShort :
    (d now : ℕ) (id : String) (t : QueuedTask) (w : World)
    → Inv w
    → lookup id w.running ≡ some t
    → IsShort d w
    → IsShort d (mark_done now id w).0
unfolding mark_done
mark_done-IsShort d now id t w v runs h =
    try_dequeue-IsShort d now (finish_running id w) (finish_running-Inv id w v) (
      unfold finish_running in
      omega (arith, h, length-delete_present id w.running {w = t} v.running_unique runs))

-- MarkDone of an id that does not run, on a valid queue, makes the gauge of active tasks one less
-- than it should be: it grows apart from the number of running tasks.
pub mark_done_unknown-IsShort :
    (d now : ℕ) (id : String) (w : World)
    → Inv w
    → lookup id w.running ≡ none
    → IsShort d w
    → IsShort (suc d) (mark_done now id w).0
unfolding mark_done
mark_done_unknown-IsShort d now id w v gone h =
    try_dequeue-IsShort (suc d) now (finish_running id w) (finish_running-Inv id w v)
      (unfold finish_running in omega (arith, h, ap length (delete_absent id w.running gone)))
