-- ===== src/Queue/State.antt =====
-- gateway/task_queue.go: the state, and what its methods share. `World` is a queue with the
-- process-wide counters that its methods update.
use agentfactory_gateway.Common.{
  ℕ, suc, ◌+◌, ◌-◌, String, Bool, true, false, ◌||◌, Option, none, some, List, [], ◌∷◌,
  if◌then◌else◌, is_zero, ltb, ◌==◌, length,
}
use agentfactory_gateway.Common.Dict.{values, Dict, lookup, insert, delete}
use agentfactory_gateway.Common.Int.{ℤ, pos, is_nonpositive, reaches}
use agentfactory_gateway.Metrics.{Metrics}
use agentfactory_gateway.Queue.Task.{QueuedTask}
use mathlib.Core.Option.{get_or}

pub record TaskQueueConfig : Type 0 where
  pub max_concurrent_tasks : ℤ
  pub max_per_channel : ℤ

-- `on_dequeue` says whether a callback is set. What the callback does is not part of the queue: the
-- methods return the task that it is called with. A count in `channels` is never negative, since
-- an entry that falls to zero or below is deleted at once.
pub record TaskQueue : Type 0 where
  pub config : TaskQueueConfig
  pub waiting : List QueuedTask
  pub running : Dict QueuedTask
  pub channels : Dict ℕ
  pub on_dequeue : Bool

unfoldable pub new_task_queue : TaskQueueConfig → TaskQueue
new_task_queue config = record {
  config = record {
    max_concurrent_tasks =
        if is_nonpositive config.max_concurrent_tasks then pos 5 else config.max_concurrent_tasks;
    max_per_channel =
        if is_nonpositive config.max_per_channel then pos 1 else config.max_per_channel;
  };
  waiting = [];
  running = [];
  channels = [];
  on_dequeue = false;
}

pub record World : Type 0 where
  pub tq : TaskQueue
  pub open tq use {config, waiting, running, channels, on_dequeue}
  pub metrics : Metrics

unfoldable pub set_dequeue_callback : World → World
set_dequeue_callback w = record w { tq = record tq { on_dequeue = true } }
  where
    open w use {tq}

-- The value of m[k], 0 where the key is missing.
abbrev pub count_of : String → Dict ℕ → ℕ
count_of k m = get_or (lookup k m) 0

-- m[k]++
unfoldable pub count_up : String → Dict ℕ → Dict ℕ
count_up k m = insert k (count_of k m + 1) m

-- m[k]--; if m[k] <= 0 { delete(m, k) }. Where Go reaches -1, `-` stops at 0: both delete the entry.
unfoldable pub count_down : String → Dict ℕ → Dict ℕ
count_down k m = let n : ℕ = count_of k m - 1 in if is_zero n then delete k m else insert k n m

-- The loop of positionOf: the 1-based position of a task, 0 if there is none.
unfoldable pub position_from : ℕ → String → List QueuedTask → ℕ
position_from i id [] = 0
position_from i id (t ∷ ts) =
    let rest = position_from (suc i) id ts in if t.task_id == id then i + 1 else rest

unfoldable pub position_of : String → World → ℕ
unfolding position_from
position_of id w = position_from 0 id w.waiting

-- The loop over `waiting` that looks for an id.
unfoldable pub is_waiting : String → List QueuedTask → Bool
is_waiting id [] = false
is_waiting id (t ∷ ts) = t.task_id == id || is_waiting id ts

-- The loop that finds a task by its id, with append(waiting[:i], waiting[i+1:]...).
unfoldable pub remove_waiting : String → List QueuedTask → Option (QueuedTask × List QueuedTask)
remove_waiting id [] = none
remove_waiting id (t ∷ ts) =
    let deeper : Option (QueuedTask × List QueuedTask) = (elim (remove_waiting id ts) [
      | none ↦ none
      | some (x, rest) ↦ some (x, t ∷ rest)
    ]) in
    if t.task_id == id then some (t, ts) else deeper

-- the loop over `running` in the order of its entries
unfoldable pub list_running : World → List QueuedTask
list_running w = values w.running

unfoldable pub running_count : World → ℕ
running_count w = length w.running

unfoldable pub queue_length : World → ℕ
queue_length w = length w.waiting

unfoldable pub is_at_capacity : World → Bool
is_at_capacity w = reaches (length w.running) w.config.max_concurrent_tasks

unfoldable pub channel_has_active_task : String → World → Bool
channel_has_active_task c w = ltb 0 (count_of c w.channels)

unfoldable pub can_enqueue : World → Bool
can_enqueue w = true

unfoldable pub list_waiting : World → List QueuedTask
list_waiting w = w.waiting

-- The first task of a channel, in the order visited.
unfoldable pub first_in_channel : String → List QueuedTask → Option QueuedTask
first_in_channel c [] = none
first_in_channel c (t ∷ ts) =
    let rest = first_in_channel c ts in if t.channel_id == c then some t else rest

-- `visited` is the order in which the loop over `running` meets its tasks.
unfoldable pub find_by_channel : List QueuedTask → String → World → Option QueuedTask
unfolding first_in_channel
find_by_channel visited c w = elim (first_in_channel c visited) [
  | some t ↦ some t
  | none ↦ first_in_channel c w.waiting
]
