-- ===== src/Queue/Cases.antt =====
-- gateway/task_queue.go: what MarkRunning, tryDequeue and releaseTerminalTask come down to, case by
-- case. MarkRunning and tryDequeue both move one task from the waiting queue to the running map.
use agentfactory_gateway.Common.{
  ℕ, String, ◌≡◌, true, false, ◌⊎◌, inl, inr, Option, none, some, List, ◌++◌, if◌then◌else◌,
  Bool-cases, All,
}
use agentfactory_gateway.Common.Dict.{insert}
use agentfactory_gateway.Metrics.{incr, decr}
use agentfactory_gateway.Queue.Task.{QueuedTask, dispatching, running, transition}
use agentfactory_gateway.Queue.State.{World, count_down, is_waiting, remove_waiting, is_at_capacity}
use agentfactory_gateway.Queue.Methods.{in_channels, mark_running, try_dequeue, without}
use agentfactory_gateway.Queue.Waiting.{
  HasUniqueIds, Removed, remove_cases, Chosen, first_free_cases, remove_waiting-first_free,
}

-- The task `x` leaves the waiting queue, of which `rest` is left, and runs as `t` under `id`.
abbrev pub moved : String → QueuedTask → List QueuedTask → QueuedTask → World → World
moved id x rest t w = record w {
  tq = record tq {
    waiting = rest;
    channels = count_down x.channel_id tq.channels;
    running = insert id t tq.running;
  };
  metrics = record metrics {
    active_tasks = incr metrics.active_tasks;
    queued_tasks = decr metrics.queued_tasks;
  };
}
  where
    open w use {tq, metrics}

pub mark_running_cases :
    (now : ℕ) (id : String) (w : World)
    → ((mark_running now id w ≡ (w, false)) × (is_waiting id w.waiting ≡ false))
      ⊎ ((x : QueuedTask) × (rest : List QueuedTask) × (mark_running now id w
            ≡ (moved id x rest (transition now x running).0 w, true))
          × Removed id x w.waiting rest)
unfolding mark_running
mark_running_cases now id w = elim (remove_cases id w.waiting) [
  | inl (gone, absent) ↦ inl (rw (gone, mark_running), absent)
  | inr (x, rest, found, r) ↦ inr (x, rest, rw (found, mark_running), r)
]

-- No task may start: the limit is reached, or each waiting task's channel is busy.
abbrev pub NoneEligible : World → Type 0
NoneEligible w =
    (is_at_capacity w ≡ true) ⊎ All (λ s. in_channels s.channel_id w.running ≡ true) w.waiting

-- What tryDequeue hands to the callback.
abbrev pub called : World → QueuedTask → Option QueuedTask
called w t = if w.on_dequeue then some t else none

removal :
    (w : World) (x : QueuedTask) (c : Chosen w.running x w.waiting)
    → HasUniqueIds w.waiting
    → remove_waiting x.task_id w.waiting ≡ some (x, c.before ++ c.after)
removal w x c u = remove_waiting-first_free w.running x w.waiting c u

pub try_dequeue_cases :
    (now : ℕ) (w : World)
    → HasUniqueIds w.waiting
    → ((try_dequeue now w ≡ (w, none)) × NoneEligible w)
      ⊎ ((x : QueuedTask) × (c : Chosen w.running x w.waiting) × let t =
              (transition now x dispatching).0 in
            (try_dequeue now w ≡ (moved x.task_id x (c.before ++ c.after) t w, called w t))
            × (is_at_capacity w ≡ false))
unfolding try_dequeue
try_dequeue_cases now w u = elim (Bool-cases (is_at_capacity w)) [
  | inl full ↦ inl (rw (full, try_dequeue), inl full)
  | inr room ↦ elim (first_free_cases w.running w.waiting) [
    | inl (nothing, blocked) ↦ inl (rw (room, nothing, try_dequeue), inr blocked)
    | inr (x, found, c) ↦
        inr (x, c, (rw (room, found, removal w x c u, without, try_dequeue), room))
  ]
]
