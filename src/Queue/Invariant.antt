-- ===== src/Queue/Invariant.antt =====
-- What holds of the queue of gateway/task_queue.go between any two critical sections.
use agentfactory_gateway.Common.{
  ℕ, ◌-◌, ◌%◌, ◌<◌, String, ◌≡◌, ap, true, false, none, List, [], ◌∷◌, ◌++◌, length, length-append,
  arith,
}
use agentfactory_gateway.Common.Dict.{
  Dict, lookup, insert, Entries, HasUniqueKeys, lookup-insert, lookup-delete, HasUniqueKeys-insert,
  HasUniqueKeys-delete, Entries-insert, Entries-delete,
}
use agentfactory_gateway.Metrics.{int64_mod}
use agentfactory_gateway.Queue.Task.{QueuedTask, TaskStatus, transition}
use agentfactory_gateway.Queue.State.{World, count_of, count_up, count_down, is_waiting}
use agentfactory_gateway.Queue.Methods.{
  append_waiting, finish_running, release_running, started_directly, register_direct,
}
use agentfactory_gateway.Queue.Waiting.{
  HasUniqueIds, HasUniqueIds-snoc, HasUniqueIds-middle, is_waiting-append, is_waiting-middle,
  length-middle,
}
use agentfactory_gateway.Queue.Cases.{moved}

abbrev pub IsNamed : String → QueuedTask → Type 0
IsNamed k t = t.task_id ≡ k

abbrev pub IsPositive : String → ℕ → Type 0
IsPositive k n = 0 < n

pub record Inv (w : World) : Type 0 where
  -- Each running task stands once, under its own id.
  pub running_unique : HasUniqueKeys w.running
  pub running_named : Entries IsNamed w.running
  -- No id waits twice, and no id waits and runs.
  pub waiting_unique : HasUniqueIds w.waiting
  pub disjoint : (id : String) → is_waiting id w.waiting ≡ true → lookup id w.running ≡ none
  -- The channel counts that are kept are positive.
  pub channels_unique : HasUniqueKeys w.channels
  pub channels_positive : Entries IsPositive w.channels
  -- The gauge queuedTasks is the length of the waiting queue.
  pub queued_exact : w.metrics.queued_tasks ≡ length w.waiting % int64_mod

pub transition-id :
    (now : ℕ) (t : QueuedTask) (s : TaskStatus) → (transition now t s).0.task_id ≡ t.task_id
unfolding transition
transition-id now t s = ground arith

started_directly-id : (now : ℕ) (t : QueuedTask) → (started_directly now t).task_id ≡ t.task_id
unfolding started_directly
started_directly-id now t = ground arith

count_up-HasUniqueKeys : (c : String) (m : Dict ℕ) → HasUniqueKeys m → HasUniqueKeys (count_up c m)
unfolding count_up
count_up-HasUniqueKeys c m u = HasUniqueKeys-insert c _ m u

count_down-HasUniqueKeys :
    (c : String) (m : Dict ℕ) → HasUniqueKeys m → HasUniqueKeys (count_down c m)
unfolding count_down
count_down-HasUniqueKeys c m u =
    ground (arith, HasUniqueKeys-insert c (count_of c m - 1) m u, HasUniqueKeys-delete c m u)

count_up-Entries :
    (c : String) (m : Dict ℕ) → Entries IsPositive m → Entries IsPositive (count_up c m)
unfolding count_up
count_up-Entries c m u = Entries-insert IsPositive c _ m (omega arith) u

count_down-Entries :
    (c : String) (m : Dict ℕ) → Entries IsPositive m → Entries IsPositive (count_down c m)
unfolding count_down
count_down-Entries c m u =
    ground
      (arith, Entries-insert IsPositive c (count_of c m - 1) m, Entries-delete IsPositive c m u)

pub append_waiting-Inv :
    (t : QueuedTask) (w : World)
    → Inv w
    → lookup t.task_id w.running ≡ none
    → is_waiting t.task_id w.waiting ≡ false
    → Inv (append_waiting t w)
unfolding append_waiting is_waiting
append_waiting-Inv t w v idle new = record {
  running_unique = v.running_unique;
  running_named = v.running_named;
  waiting_unique = HasUniqueIds-snoc t w.waiting new v.waiting_unique;
  disjoint = λ id h. ground (arith, is_waiting-append id w.waiting (t ∷ []), v.disjoint id);
  channels_unique = count_up-HasUniqueKeys t.channel_id w.channels v.channels_unique;
  channels_positive = count_up-Entries t.channel_id w.channels v.channels_positive;
  queued_exact = omega (arith, v.queued_exact, length-append w.waiting (t ∷ []));
}

-- A waiting task that moves to the running map, whatever its new value, under its own id.
pub moved-Inv :
    (x t : QueuedTask) (before after : List QueuedTask) (w : World)
    → Inv w
    → w.waiting ≡ before ++ x ∷ after
    → t.task_id ≡ x.task_id
    → Inv (moved x.task_id x (before ++ after) t w)
unfolding is_waiting
moved-Inv x t before after w v was named = record {
  running_unique = HasUniqueKeys-insert x.task_id t w.running v.running_unique;
  running_named = Entries-insert IsNamed x.task_id t w.running named v.running_named;
  waiting_unique = middle.2;
  disjoint = λ id h. ground (
    arith,
    middle.1,
    is_waiting-middle id x before after,
    v.disjoint id,
    ap (is_waiting id) was,
    lookup-insert id x.task_id t w.running,
  );
  channels_unique = count_down-HasUniqueKeys x.channel_id w.channels v.channels_unique;
  channels_positive = count_down-Entries x.channel_id w.channels v.channels_positive;
  queued_exact = omega (arith, v.queued_exact, ap length was, length-middle x before after);
}
  where
    middle :
        (is_waiting x.task_id before ≡ false)
        × (is_waiting x.task_id (before ++ after) ≡ false)
        × HasUniqueIds (before ++ after)
    middle = HasUniqueIds-middle x before after (rw was at v.waiting_unique)

-- Taking a task out of the running map keeps what is said of that map and of the waiting queue.
pub finish_running-Inv : (id : String) (w : World) → Inv w → Inv (finish_running id w)
unfolding finish_running
finish_running-Inv id w v = record {
  running_unique = HasUniqueKeys-delete id w.running v.running_unique;
  running_named = Entries-delete IsNamed id w.running v.running_named;
  waiting_unique = v.waiting_unique;
  disjoint = λ j h. ground (arith, v.disjoint j, lookup-delete j id w.running);
  channels_unique = v.channels_unique;
  channels_positive = v.channels_positive;
  queued_exact = v.queued_exact;
}

pub release_running-Inv :
    (id : String) (t : QueuedTask) (w : World) → Inv w → Inv (release_running id t w)
unfolding release_running
release_running-Inv id t w v = record {
  running_unique = HasUniqueKeys-delete id w.running v.running_unique;
  running_named = Entries-delete IsNamed id w.running v.running_named;
  waiting_unique = v.waiting_unique;
  disjoint = λ j h. ground (arith, v.disjoint j, lookup-delete j id w.running);
  channels_unique = count_down-HasUniqueKeys t.channel_id w.channels v.channels_unique;
  channels_positive = count_down-Entries t.channel_id w.channels v.channels_positive;
  queued_exact = v.queued_exact;
}

-- Replacing or adding a running task under its own id, which does not wait.
pub insert_running-Inv :
    (k : String) (t : QueuedTask) (w : World)
    → Inv w
    → t.task_id ≡ k
    → is_waiting k w.waiting ≡ false
    → Inv (record w { tq = record (w.tq) { running = insert k t w.running } })
insert_running-Inv k t w v named absent = record {
  running_unique = HasUniqueKeys-insert k t w.running v.running_unique;
  running_named = Entries-insert IsNamed k t w.running named v.running_named;
  waiting_unique = v.waiting_unique;
  disjoint = λ j h. ground (arith, v.disjoint j, lookup-insert j k t w.running);
  channels_unique = v.channels_unique;
  channels_positive = v.channels_positive;
  queued_exact = v.queued_exact;
}

-- Registering a task adds it to the running map and takes a slot of its channel.
pub register_direct-Inv :
    (now : ℕ) (t : QueuedTask) (w : World)
    → Inv w
    → is_waiting t.task_id w.waiting ≡ false
    → Inv (register_direct now t w)
unfolding register_direct
register_direct-Inv now t w v absent =
    let t' = started_directly now t in
    let r = insert_running-Inv t.task_id t' w v (started_directly-id now t) absent in
    record {
      running_unique = r.running_unique;
      running_named = r.running_named;
      waiting_unique = v.waiting_unique;
      disjoint = r.disjoint;
      channels_unique = count_up-HasUniqueKeys t.channel_id w.channels v.channels_unique;
      channels_positive = count_up-Entries t.channel_id w.channels v.channels_positive;
      queued_exact = v.queued_exact;
    }
