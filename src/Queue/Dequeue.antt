-- ===== src/Queue/Dequeue.antt =====
-- gateway/task_queue.go: what tryDequeue promises. It starts the first waiting task whose channel
-- has no running task, if the global limit leaves room, and changes nothing otherwise.
use agentfactory_gateway.Common.{
  ℕ, suc, ◌≤◌, String, ◌≡◌, refl, ap, true, false, inl, inr, Option, none, List, [], ◌∷◌, ◌++◌,
  if◌then◌else◌, ◌==◌, All, count_if, arith,
}
use agentfactory_gateway.Common.Dict.{Dict, lookup, insert, values}
use agentfactory_gateway.Queue.Task.{QueuedTask, TaskStatus, dispatching, transition}
use agentfactory_gateway.Queue.State.{World, is_waiting, is_at_capacity}
use agentfactory_gateway.Queue.Methods.{in_channels, try_dequeue}
use agentfactory_gateway.Queue.Waiting.{is_waiting-middle}
use agentfactory_gateway.Queue.Cases.{NoneEligible, called, try_dequeue_cases}
use agentfactory_gateway.Queue.Invariant.{Inv}

-- What it means that tryDequeue took `w` to `w'` and handed `out` to the callback.
pub data Dequeued (now : ℕ) (w w' : World) (out : Option QueuedTask) : Type 0 where
  idle : NoneEligible w → w' ≡ w → out ≡ none → Dequeued now w w' out
  started :
      (x : QueuedTask) (before after : List QueuedTask)
      → is_at_capacity w ≡ false
      → w.waiting ≡ before ++ x ∷ after
      → All (λ s. in_channels s.channel_id w.running ≡ true) before
      → in_channels x.channel_id w.running ≡ false
      → w'.waiting ≡ before ++ after
      → w'.running ≡ insert x.task_id (transition now x dispatching).0 w.running
      → out ≡ called w (transition now x dispatching).0
      → Dequeued now w w' out

-- On a valid queue, tryDequeue either does nothing, when the limit is reached or every waiting
-- task's channel is busy, or it moves the first waiting task whose channel is free to the running
-- map, with the transition to dispatching, keeps the others waiting in their order, and hands the
-- task to the callback if one is set.
pub try_dequeue-Dequeued :
    (now : ℕ) (w : World) → Inv w → Dequeued now w (try_dequeue now w).0 (try_dequeue now w).1
try_dequeue-Dequeued now w v = elim (try_dequeue_cases now w v.waiting_unique) [
  | inl (e, n) ↦ rw e (idle n refl refl)
  | inr (x, c, e) ↦ rw e.0 (started x c.before c.after e.1 c.was c.skipped c.free refl refl refl)
]

-- How many running tasks a channel has.
abbrev pub running_in : String → Dict QueuedTask → ℕ
running_in c m = count_if (λ t. t.channel_id == c) (values m)

-- No channel has more than one running task.
abbrev pub IsExclusive : World → Type 0
IsExclusive w = (c : String) → running_in c w.running ≤ 1

running_in-free : (c : String) (m : Dict QueuedTask) → in_channels c m ≡ false → running_in c m ≡ 0
unfolding in_channels count_if
running_in-free c [] h = refl
running_in-free c ((k, t) ∷ m) h = ground (arith, running_in-free c m)

running_in-insert :
    (c k : String) (t : QueuedTask) (m : Dict QueuedTask)
    → lookup k m ≡ none
    → running_in c (insert k t m)
      ≡ (if t.channel_id == c then suc (running_in c m) else running_in c m)
unfolding insert lookup count_if
running_in-insert c k t [] h = refl
running_in-insert c k t ((j, u) ∷ m) h = ground (arith, running_in-insert c k t m)

transition-channel :
    (now : ℕ) (t : QueuedTask) (s : TaskStatus) → (transition now t s).0.channel_id ≡ t.channel_id
unfolding transition
transition-channel now t s = ground arith

-- A task that waits does not run.
pub waits_not_runs :
    (w : World) (x : QueuedTask) (before after : List QueuedTask)
    → Inv w
    → w.waiting ≡ before ++ x ∷ after
    → lookup x.task_id w.running ≡ none
waits_not_runs w x before after v was =
    v.disjoint x.task_id
      (ground (arith, ap (is_waiting x.task_id) was, is_waiting-middle x.task_id x before after))

-- On a valid queue where no channel has two running tasks, tryDequeue starts no second one.
pub try_dequeue-IsExclusive :
    (now : ℕ) (w : World) → Inv w → IsExclusive w → IsExclusive (try_dequeue now w).0
try_dequeue-IsExclusive now w v h c = elim (try_dequeue_cases now w v.waiting_unique) [
  | inl (e, _) ↦ rw e (h c)
  | inr (x, ch, e) ↦ rw e.0 (
      ground (
        arith,
        h c,
        running_in-insert c x.task_id (transition now x dispatching).0 w.running
            (waits_not_runs w x ch.before ch.after v ch.was),
        transition-channel now x dispatching,
        running_in-free c w.running,
        ch.free,
      ))
]
