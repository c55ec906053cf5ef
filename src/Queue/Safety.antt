-- ===== src/Queue/Safety.antt =====
-- Every critical section of gateway/task_queue.go keeps the invariant, so it holds after any
-- interleaving of them, and after every method.
use agentfactory_gateway.Common.{
  ℕ, String, ◌≡◌, refl, ◌∙◌, false, inl, inr, Option, none, some, arith, Bool-cases, Option-cases,
}
use agentfactory_gateway.Common.Dict.{lookup, Entries-lookup}
use agentfactory_gateway.Metrics.{reset_metrics}
use agentfactory_gateway.Queue.Task.{QueuedTask, running, dispatching, transition}
use agentfactory_gateway.Queue.State.{World, TaskQueueConfig, new_task_queue, is_waiting}
use agentfactory_gateway.Queue.Methods.{
  enqueue, mark_running, try_dequeue, mark_dispatched, mark_running_direct,
}
use agentfactory_gateway.Queue.Invariant.{
  Inv, IsNamed, transition-id, append_waiting-Inv, moved-Inv, finish_running-Inv,
  release_running-Inv, insert_running-Inv, register_direct-Inv,
}
use agentfactory_gateway.Queue.Cases.{mark_running_cases, try_dequeue_cases}
use agentfactory_gateway.Queue.Sections.{
  Action, enqueues, marks_running, finishes, dequeues, releases, marks_dispatched, registers,
  release, apply, Allowed, Reach, here, next,
}

enqueue-Inv : (t : Option QueuedTask) (w : World) → Inv w → Inv (enqueue t w).0
unfolding enqueue
enqueue-Inv none w v = v
enqueue-Inv (some t) w v = ground (arith, append_waiting-Inv t w v)

mark_running-Inv : (now : ℕ) (id : String) (w : World) → Inv w → Inv (mark_running now id w).0
mark_running-Inv now id w v = elim (mark_running_cases now id w) [
  | inl (e, _) ↦ rw e v
  | inr (x, rest, e, r) ↦
      rw (e, ← r.named, r.is)
        (moved-Inv x _ r.before r.after w v r.was (transition-id now x running))
]

pub try_dequeue-Inv : (now : ℕ) (w : World) → Inv w → Inv (try_dequeue now w).0
try_dequeue-Inv now w v = elim (try_dequeue_cases now w v.waiting_unique) [
  | inl (e, _) ↦ rw e v
  | inr (x, c, e) ↦
      rw e.0 (moved-Inv x _ c.before c.after w v c.was (transition-id now x dispatching))
]

pub release-Inv : (id : String) (w : World) → Inv w → Inv (release id w)
unfolding release
release-Inv id w v = elim (Option-cases (lookup id w.running)) [
  | inl e ↦ rw (e, release) v
  | inr (t, e) ↦ rw (e, release) (release_running-Inv id t w v)
]

-- A running task's id does not wait.
running_not_waiting :
    (id : String) (w : World) {t : QueuedTask}
    → Inv w
    → lookup id w.running ≡ some t
    → is_waiting id w.waiting ≡ false
running_not_waiting id w v e = elim (Bool-cases (is_waiting id w.waiting)) [
  | inl waits ↦ absurd (ground (arith, v.disjoint id))
  | inr idle ↦ idle
]

mark_dispatched-Inv : (now : ℕ) (id : String) (w : World) → Inv w → Inv (mark_dispatched now id w).0
unfolding mark_dispatched
mark_dispatched-Inv now id w v = elim (Option-cases (lookup id w.running)) [
  | inl e ↦ rw (e, mark_dispatched) v
  | inr (t, e) ↦ elim (Option-cases (transition now t running).1) [
    | inr (x, refused) ↦ rw (e, refused, mark_dispatched) v
    | inl moves ↦
        rw (e, moves, mark_dispatched)
          (insert_running-Inv id _ w v
            (transition-id now t running ∙ Entries-lookup IsNamed id w.running v.running_named e)
            (running_not_waiting id w v e))
  ]
]

mark_running_direct-Inv :
    (now : ℕ) (t : QueuedTask) (w : World)
    → Inv w
    → is_waiting t.task_id w.waiting ≡ false
    → Inv (mark_running_direct now t w)
unfolding mark_running_direct
mark_running_direct-Inv now t w v absent = ground (arith, register_direct-Inv now t w v)

pub apply-Inv : (a : Action) (w : World) → Allowed a w → Inv w → Inv (apply a w)
unfolding apply
apply-Inv (enqueues t) w _ v = enqueue-Inv t w v
apply-Inv (marks_running now id) w _ v = mark_running-Inv now id w v
apply-Inv (finishes id) w _ v = finish_running-Inv id w v
apply-Inv (dequeues now) w _ v = try_dequeue-Inv now w v
apply-Inv (releases id) w _ v = release-Inv id w v
apply-Inv (marks_dispatched now id) w _ v = mark_dispatched-Inv now id w v
apply-Inv (registers now t) w h v = mark_running_direct-Inv now t w v h

-- A new queue, with the counters at zero.
abbrev pub initial : TaskQueueConfig → World
initial config = record { tq = new_task_queue config; metrics = reset_metrics }

pub initial-Inv : (config : TaskQueueConfig) → Inv (initial config)
unfolding new_task_queue reset_metrics is_waiting lookup
initial-Inv config = record {
  running_unique = tt;
  running_named = tt;
  waiting_unique = tt;
  disjoint = λ id h. refl;
  channels_unique = tt;
  channels_positive = tt;
  queued_exact = refl;
}

Reach-Inv_from : {w v : World} → Inv w → Reach w v → Inv v
Reach-Inv_from i here = i
Reach-Inv_from i (next {v = u} a r h) = apply-Inv a u h (Reach-Inv_from i r)

-- After any interleaving of critical sections of a new queue, where direct registrations use ids
-- that do not wait: running tasks are unique and stand under their own ids, waiting ids are unique,
-- no id both waits and runs, each channel count that is kept is positive, and the gauge of queued
-- tasks is the length of the waiting queue modulo 2^64.
pub Reach-Inv : (config : TaskQueueConfig) {w : World} → Reach (initial config) w → Inv w
Reach-Inv config r = Reach-Inv_from (initial-Inv config) r
