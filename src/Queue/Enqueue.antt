-- ===== src/Queue/Enqueue.antt =====
-- gateway/task_queue.go: the results of Enqueue, and the status that MarkRunning leaves.
use agentfactory_gateway.Common.{
  ℕ, suc, ◌+◌, String, ◌≡◌, refl, ◌≢◌, true, false, ◌⊎◌, inl, inr, Option, none, some, List, [],
  ◌∷◌, ◌++◌, ◌==◌, length, length-append, arith, eq_self, Bool-cases,
}
use agentfactory_gateway.Common.Dict.{lookup, has_key, lookup-insert}
use agentfactory_gateway.Queue.Task.{QueuedTask, queued, running, transition}
use agentfactory_gateway.Queue.State.{World, is_waiting, remove_waiting, position_from, position_of}
use agentfactory_gateway.Queue.Methods.{
  EnqueueError, append_waiting, enqueue, mark_running, mark_dispatched,
}
use agentfactory_gateway.Queue.Waiting.{remove_waiting-middle}
use agentfactory_gateway.Queue.Tracking.{tracked}

position_from_last :
    (i : ℕ) (t : QueuedTask) (ts : List QueuedTask)
    → is_waiting t.task_id ts ≡ false
    → position_from i t.task_id (ts ++ t ∷ []) ≡ i + length ts + 1
unfolding position_from is_waiting
position_from_last i t [] h = ground arith
position_from_last i t (x ∷ ts) h = ground (arith, position_from_last (suc i) t ts)

-- The outcome of Enqueue.
pub data Enqueued (t : QueuedTask) (w w' : World) (pos : ℕ) (err : Option EnqueueError)
    : Type 0 where
  refused :
      (t.task_id ≡ "") ⊎ (tracked t.task_id w ≡ true)
      → err ≢ none
      → pos ≡ 0
      → w' ≡ w
      → Enqueued t w w' pos err
  accepted :
      t.task_id ≢ ""
      → tracked t.task_id w ≡ false
      → err ≡ none
      → w'.waiting ≡ w.waiting ++ t ∷ []
      → w'.running ≡ w.running
      → pos ≡ length w'.waiting
      → Enqueued t w w' pos err

-- Enqueue of a task either refuses it, exactly when its id is empty, runs or waits, with an error,
-- position 0 and the state unchanged; or it puts the task at the end of the waiting queue, leaves
-- the running map alone, and returns no error and the new length as the position.
pub enqueue-Enqueued :
    (t : QueuedTask) (w : World)
    → Enqueued t w (enqueue (some t) w).0 (enqueue (some t) w).1 (enqueue (some t) w).2
unfolding enqueue append_waiting position_of
enqueue-Enqueued t w = elim (Bool-cases (t.task_id == "")) [
  | inl e ↦ rw (e, enqueue) (refused (inl (ground arith)) (λ h. cc) refl refl)
  | inr named ↦ elim (Bool-cases (has_key t.task_id w.running)) [
    | inl runs ↦ rw (named, runs, enqueue) (refused (inr (ground arith)) (λ h. cc) refl refl)
    | inr idle ↦ elim (Bool-cases (is_waiting t.task_id w.waiting)) [
      | inl waits ↦
          rw (named, idle, waits, enqueue) (refused (inr (ground arith)) (λ h. cc) refl refl)
      | inr new ↦
          rw (named, idle, new, enqueue)
            (accepted (ground arith) (ground arith) refl refl refl (
              ground
                (arith, position_from_last 0 t w.waiting new, length-append w.waiting (t ∷ []))))
    ]
  ]
]

transition_refused :
    (now : ℕ) (x : QueuedTask)
    → x.status ≡ queued
    → ((transition now x running).0 ≡ x) × ((e : _) × ((transition now x running).1 ≡ some e))
unfolding transition
transition_refused now x q =
    (ground arith, (record { from = x.status; to = running }, ground arith))

mark_dispatched_refused :
    (now : ℕ) (id : String) (w : World) (x : QueuedTask)
    → lookup id w.running ≡ some x
    → x.status ≡ queued
    → mark_dispatched now id w ≡ (w, false)
unfolding mark_dispatched
mark_dispatched_refused now id w x e q =
    let (_, (_, bad)) = transition_refused now x q in rw (e, bad, mark_dispatched)

runs_unchanged :
    (now : ℕ) (id : String) (w : World) (x : QueuedTask) (before after : List QueuedTask)
    → remove_waiting id w.waiting ≡ some (x, before ++ after)
    → x.status ≡ queued
    → lookup id (mark_running now id w).0.running ≡ some x
unfolding mark_running
runs_unchanged now id w x before after taken q =
    rw (taken, mark_running, (transition_refused now x q).0, lookup-insert) (rw (eq_self id))

-- A task that waits with the status queued keeps that status when MarkRunning moves it to the
-- running map, since the transition to running is refused and the error dropped; MarkDispatched of
-- it then fails too.
pub mark_running-stays_queued :
    (now later : ℕ) (id : String) (w : World) (x : QueuedTask) (before after : List QueuedTask)
    → w.waiting ≡ before ++ x ∷ after
    → is_waiting id before ≡ false
    → x.task_id ≡ id
    → x.status ≡ queued
    → let w' = (mark_running now id w).0 in
      (lookup id w'.running ≡ some x) × (mark_dispatched later id w' ≡ (w', false))
mark_running-stays_queued now later id w x before after was first named q =
    let taken : remove_waiting id w.waiting ≡ some (x, before ++ after) =
      rw (was, ← named) (remove_waiting-middle x before after (rw (← named) at first)) in
    let kept = runs_unchanged now id w x before after taken q in
    (kept, mark_dispatched_refused later id (mark_running now id w).0 x kept q)
