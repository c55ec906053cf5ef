-- ===== src/Queue/Methods.antt =====
-- gateway/task_queue.go: the methods that change the state. A method returns the new state, its
-- result, and the task that the dequeue callback is called with, if it is called.
use agentfactory_gateway.Common.{
  ℕ, String, Bool, true, false, ◌||◌, Option, none, some, List, [], ◌∷◌, ◌++◌, if◌then◌else◌, ◌==◌,
}
use agentfactory_gateway.Common.Dict.{Dict, lookup, insert, delete, has_key}
use agentfactory_gateway.Metrics.{incr, decr}
use agentfactory_gateway.Queue.Task.{
  QueuedTask, TaskStatus, queued, dispatching, running, set_started_at, transition,
}
use agentfactory_gateway.Queue.State.{
  World, count_up, count_down, position_of, is_waiting, remove_waiting, is_at_capacity,
}

-- The texts of the errors are left out.
pub data EnqueueError : Type 0 where
  nil_task empty_task_id already_running already_in_queue : EnqueueError

-- What Enqueue does once its checks have passed.
unfoldable pub append_waiting : QueuedTask → World → World
append_waiting task w = record w {
  tq = record tq {
    waiting = tq.waiting ++ task ∷ [];
    channels = count_up task.channel_id tq.channels;
  };
  metrics = record metrics {
    total_tasks_enqueued = incr metrics.total_tasks_enqueued;
    queued_tasks = incr metrics.queued_tasks;
  };
}
  where
    open w use {tq, metrics}

unfoldable pub enqueue : Option QueuedTask → World → World × ℕ × Option EnqueueError
enqueue none w = (w, 0, some nil_task)
enqueue (some task) w =
    if task.task_id == ""
    then (w, 0, some empty_task_id)
    else if has_key task.task_id w.running
    then (w, 0, some already_running)
    else if is_waiting task.task_id w.waiting
    then (w, 0, some already_in_queue)
    else (let w' = append_waiting task w in (w', position_of task.task_id w', none))

-- The error of the transition is dropped.
unfoldable pub mark_running : ℕ → String → World → World × Bool
unfolding remove_waiting
mark_running now id w = elim (remove_waiting id tq.waiting) [
  | none ↦ (w, false)
  | some (wt, rest) ↦ (
    record w {
      tq = record tq {
        waiting = rest;
        channels = count_down wt.channel_id tq.channels;
        running = insert id (transition now wt running).0 tq.running;
      };
      metrics = record metrics {
        active_tasks = incr metrics.active_tasks;
        queued_tasks = decr metrics.queued_tasks;
      };
    },
    true,
  )
]
  where
    open w use {tq, metrics}

-- runningChannels[c], for the map that is filled from the running tasks.
unfoldable pub in_channels : String → Dict QueuedTask → Bool
in_channels c [] = false
in_channels c ((k, t) ∷ m) = t.channel_id == c || in_channels c m

-- The scan of the waiting queue in FIFO order.
unfoldable pub first_free : Dict QueuedTask → List QueuedTask → Option QueuedTask
unfolding in_channels
first_free busy [] = none
first_free busy (t ∷ ts) =
    let rest = first_free busy ts in if in_channels t.channel_id busy then rest else some t

unfoldable pub find_next_eligible : World → Option QueuedTask
unfolding is_at_capacity first_free
find_next_eligible w = if is_at_capacity w then none else first_free w.running w.waiting

-- The loop that removes the chosen task from the waiting queue.
abbrev pub without : String → List QueuedTask → List QueuedTask
without id ts = elim (remove_waiting id ts) [ none ↦ ts | some (_, rest) ↦ rest ]

unfoldable pub try_dequeue : ℕ → World → World × Option QueuedTask
unfolding find_next_eligible remove_waiting
try_dequeue now w = elim (find_next_eligible w) [
  | none ↦ (w, none)
  | some next ↦ (
    record w {
      tq = record tq {
        waiting = without next.task_id tq.waiting;
        channels = count_down next.channel_id tq.channels;
        running = insert next.task_id (transition now next dispatching).0 tq.running;
      };
      metrics = record metrics {
        queued_tasks = decr metrics.queued_tasks;
        active_tasks = incr metrics.active_tasks;
      };
    },
    if tq.on_dequeue then some (transition now next dispatching).0 else none,
  )
]
  where
    open w use {tq, metrics}

-- MarkDone and MarkError up to the unlock.
unfoldable pub finish_running : String → World → World
finish_running id w = record w {
  tq = record tq { running = delete id tq.running };
  metrics = record metrics {
    total_tasks_completed = incr metrics.total_tasks_completed;
    active_tasks = decr metrics.active_tasks;
  };
}
  where
    open w use {tq, metrics}

unfoldable pub mark_done : ℕ → String → World → World × Option QueuedTask
mark_done now id w = try_dequeue now (finish_running id w)

unfoldable pub mark_error : ℕ → String → World → World × Option QueuedTask
mark_error now id w = try_dequeue now (finish_running id w)

-- releaseTerminalTask, for a task that is running.
unfoldable pub release_running : String → QueuedTask → World → World
release_running id task w = record w {
  tq = record tq {
    running = delete id tq.running;
    channels = count_down task.channel_id tq.channels;
  };
  metrics = record metrics { active_tasks = decr metrics.active_tasks };
}
  where
    open w use {tq, metrics}

unfoldable pub release_terminal_task : ℕ → String → Bool → World → World × Option QueuedTask
release_terminal_task now id is_done w = elim (lookup id w.running) [
  | none ↦ (w, none)
  | some task ↦
      let w' = release_running id task w in if is_done then try_dequeue now w' else (w', none)
]

unfoldable pub mark_dispatched : ℕ → String → World → World × Bool
mark_dispatched now id w = elim (lookup id tq.running) [
  | none ↦ (w, false)
  | some task ↦ elim (transition now task running).1 [
    | some _ ↦ (w, false)
    | none ↦ (
      record w {
        tq = record tq { running = insert id (transition now task running).0 tq.running };
      },
      true,
    )
  ]
]
  where
    open w use {tq}

abbrev pub is_queued : TaskStatus → Bool
is_queued queued = true
is_queued _ = false

-- The status that MarkRunningDirect gives.
unfoldable pub started_directly : ℕ → QueuedTask → QueuedTask
unfolding set_started_at
started_directly now task =
    if is_queued task.status then set_started_at now (record task { status = running }) else task

-- MarkRunningDirect once its checks have passed.
unfoldable pub register_direct : ℕ → QueuedTask → World → World
unfolding started_directly
register_direct now task w = record w {
  tq = record tq {
    running = insert task.task_id (started_directly now task) tq.running;
    channels = count_up task.channel_id tq.channels;
  };
  metrics = record metrics {
    total_tasks_enqueued = incr metrics.total_tasks_enqueued;
    active_tasks = incr metrics.active_tasks;
  };
}
  where
    open w use {tq, metrics}

unfoldable pub mark_running_direct : ℕ → QueuedTask → World → World
mark_running_direct now task w =
    if task.task_id == ""
    then w
    else if has_key task.task_id w.running
    then w
    else register_direct now task w
