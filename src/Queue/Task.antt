-- ===== src/Queue/Task.antt =====
-- gateway/queued_task.go: a task's status, the allowed transitions and the task itself. A time is a
-- number of time units, 0 for Go's zero time; `now` is what time.Now returns.
use Prim.Native.String
use agentfactory_gateway.Common.{
  ℕ, String, Bool, true, false, Option, none, some, if◌then◌else◌, is_zero,
}

pub data TaskStatus : Type 0 where
  queued dispatching running done error : TaskStatus

-- The values of the constants.
unfoldable pub status_text : TaskStatus → String
status_text queued = "queued"
status_text dispatching = "dispatching"
status_text running = "running"
status_text done = "done"
status_text error = "error"

unfoldable pub is_valid_transition : TaskStatus → TaskStatus → Bool
is_valid_transition queued dispatching = true
is_valid_transition dispatching running = true
is_valid_transition dispatching error = true
is_valid_transition running done = true
is_valid_transition running error = true
is_valid_transition _ _ = false

pub record QueuedTask : Type 0 where
  pub task_id : String
  pub channel_id : String
  pub user_id : String
  pub prompt : String
  pub status : TaskStatus
  pub created_at : ℕ
  pub started_at : ℕ
  pub slack_ts : String

unfoldable pub new_queued_task : ℕ → String → String → String → String → QueuedTask
new_queued_task now task_id channel_id user_id prompt = record {
  task_id = task_id;
  channel_id = channel_id;
  user_id = user_id;
  prompt = prompt;
  status = queued;
  created_at = now;
  started_at = 0;
  slack_ts = "";
}

pub record InvalidTransitionError : Type 0 where
  pub from : TaskStatus
  pub to : TaskStatus

unfoldable pub error_text : InvalidTransitionError → String
unfolding status_text
error_text e =
    String.◌++◌ "invalid task status transition: "
      (String.◌++◌ (status_text e.from) (String.◌++◌ " → " (status_text e.to)))

-- next == TaskStatusRunning || next == TaskStatusDispatching
abbrev pub starts : TaskStatus → Bool
starts running = true
starts dispatching = true
starts _ = false

-- if StartedAt.IsZero() { StartedAt = time.Now() }
unfoldable pub set_started_at : ℕ → QueuedTask → QueuedTask
set_started_at now qt = if is_zero qt.started_at then record qt { started_at = now } else qt

unfoldable pub transition : ℕ → QueuedTask → TaskStatus → QueuedTask × Option InvalidTransitionError
unfolding is_valid_transition set_started_at
transition now qt next =
    if is_valid_transition qt.status next
    then (let moved = record qt { status = next } in
        (if starts next then set_started_at now moved else moved, none))
    else (qt, some (record { from = qt.status; to = next }))
