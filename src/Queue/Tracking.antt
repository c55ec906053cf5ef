-- ===== src/Queue/Tracking.antt =====
-- gateway/task_queue.go: which tasks the queue knows of. No method but a finish or a release loses a
-- task, and none but Enqueue and MarkRunningDirect adds one.
use agentfactory_gateway.Common.{
  ℕ, String, ◌≡◌, refl, ap, Bool, ◌&&◌, ◌||◌, inl, inr, none, some, List, [], ◌∷◌, ◌++◌, ◌==◌, ◌/=◌,
  arith, Option-cases,
}
use agentfactory_gateway.Common.Dict.{lookup, has_key, lookup-insert, lookup-delete}
use agentfactory_gateway.Queue.Task.{QueuedTask, running, transition}
use agentfactory_gateway.Queue.State.{World, is_waiting}
use agentfactory_gateway.Queue.Methods.{
  append_waiting, enqueue, mark_running, finish_running, try_dequeue, release_running,
  mark_dispatched, started_directly, register_direct, mark_running_direct,
}
use agentfactory_gateway.Queue.Waiting.{is_waiting-append, is_waiting-middle}
use agentfactory_gateway.Queue.Cases.{moved, mark_running_cases, try_dequeue_cases}
use agentfactory_gateway.Queue.Sections.{
  Action, enqueues, marks_running, finishes, dequeues, releases, marks_dispatched, registers,
  release, apply,
}
use agentfactory_gateway.Queue.Invariant.{Inv}

-- The queue knows an id that waits or runs.
abbrev pub tracked : String → World → Bool
tracked j w = is_waiting j w.waiting || has_key j w.running

-- What an action makes of the ids that the queue knows.
abbrev pub tracked_after : Action → String → World → Bool
tracked_after (enqueues none) j w = tracked j w
tracked_after (enqueues (some t)) j w = tracked j w || (t.task_id == j && t.task_id /= "")
tracked_after (finishes id) j w = is_waiting j w.waiting || (has_key j w.running && id /= j)
tracked_after (releases id) j w = is_waiting j w.waiting || (has_key j w.running && id /= j)
tracked_after (registers now t) j w = tracked j w || (t.task_id == j && t.task_id /= "")
tracked_after _ j w = tracked j w

moved-tracked :
    (j : String) (x t : QueuedTask) (before after : List QueuedTask) (w : World)
    → w.waiting ≡ before ++ x ∷ after
    → tracked j (moved x.task_id x (before ++ after) t w) ≡ tracked j w
moved-tracked j x t before after w was = ground (
  arith,
  ap (is_waiting j) was,
  is_waiting-middle j x before after,
  lookup-insert j x.task_id t w.running,
)

enqueue-tracked :
    (j : String) (t : QueuedTask) (w : World)
    → tracked j (enqueue (some t) w).0 ≡ tracked_after (enqueues (some t)) j w
unfolding enqueue append_waiting is_waiting
enqueue-tracked j t w = ground (arith, is_waiting-append j w.waiting (t ∷ []))

mark_running-tracked :
    (now : ℕ) (id j : String) (w : World) → tracked j (mark_running now id w).0 ≡ tracked j w
mark_running-tracked now id j w = elim (mark_running_cases now id w) [
  | inl (e, _) ↦ rw e
  | inr (x, rest, e, r) ↦ rw (e, ← r.named, r.is) (moved-tracked j x _ r.before r.after w r.was)
]

try_dequeue-tracked :
    (now : ℕ) (j : String) (w : World) → Inv w → tracked j (try_dequeue now w).0 ≡ tracked j w
try_dequeue-tracked now j w v = elim (try_dequeue_cases now w v.waiting_unique) [
  | inl (e, _) ↦ rw e
  | inr (x, c, e) ↦ rw e.0 (moved-tracked j x _ c.before c.after w c.was)
]

finish_running-tracked :
    (id j : String) (w : World) → tracked j (finish_running id w) ≡ tracked_after (finishes id) j w
unfolding finish_running
finish_running-tracked id j w = ground (arith, lookup-delete j id w.running)

release-tracked :
    (id j : String) (w : World) → tracked j (release id w) ≡ tracked_after (releases id) j w
unfolding release release_running
release-tracked id j w = ground (arith, lookup-delete j id w.running)

mark_dispatched-tracked :
    (now : ℕ) (id j : String) (w : World) → tracked j (mark_dispatched now id w).0 ≡ tracked j w
unfolding mark_dispatched
mark_dispatched-tracked now id j w = elim (Option-cases (lookup id w.running)) [
  | inl e ↦ rw (e, mark_dispatched)
  | inr (t, e) ↦ elim (Option-cases (transition now t running).1) [
    | inr (x, refused) ↦ rw (e, refused, mark_dispatched)
    | inl moves ↦
        rw (e, moves, mark_dispatched)
          (ground (arith, e, lookup-insert j id (transition now t running).0 w.running))
  ]
]

mark_running_direct-tracked :
    (now : ℕ) (t : QueuedTask) (j : String) (w : World)
    → tracked j (mark_running_direct now t w) ≡ tracked_after (registers now t) j w
unfolding mark_running_direct register_direct
mark_running_direct-tracked now t j w =
    ground (arith, lookup-insert j t.task_id (started_directly now t) w.running)

-- On a valid queue, each critical section changes the set of known ids exactly so: Enqueue and
-- MarkRunningDirect add the id of their task unless it is empty (nothing changes if it was known),
-- finishing and releasing a task take its id out of the running ones, and all others keep the set.
pub apply-tracked :
    (a : Action) (j : String) (w : World) → Inv w → tracked j (apply a w) ≡ tracked_after a j w
unfolding apply
apply-tracked (enqueues none) j w v = unfold enqueue in refl
apply-tracked (enqueues (some t)) j w v = enqueue-tracked j t w
apply-tracked (marks_running now id) j w v = mark_running-tracked now id j w
apply-tracked (finishes id) j w v = finish_running-tracked id j w
apply-tracked (dequeues now) j w v = try_dequeue-tracked now j w v
apply-tracked (releases id) j w v = release-tracked id j w
apply-tracked (marks_dispatched now id) j w v = mark_dispatched-tracked now id j w
apply-tracked (registers now t) j w v = mark_running_direct-tracked now t j w
