-- ===== src/Gateway/StartTests.antt =====
-- Runs of the start of a task by a message and of the loop of Start of gateway/slack.go, and their
-- theorems at a concrete input.
use agentfactory_gateway.Common.{ℕ, List, ◌∷◌, some, none, ◌≡◌, refl, [], true, false, count_if}
use agentfactory_gateway.Common.Int.{pos}
use agentfactory_gateway.Common.Strings.{after_prefix, has_prefix}
use agentfactory_gateway.Common.Dict.{lookup}
use agentfactory_gateway.Queue.State.{
  World, TaskQueueConfig, new_task_queue, is_waiting, channel_has_active_task,
}
use agentfactory_gateway.Queue.Task.{new_queued_task}
use agentfactory_gateway.Queue.Sections.{Reach, here, next, finishes, apply}
use agentfactory_gateway.Queue.Safety.{initial, initial-Inv}
use agentfactory_gateway.Gateway.Interactive.{MentionEvent}
use agentfactory_gateway.Gateway.Mention.{
  is_dispatch_task, strip_dispatch_prefix, request_of, streamed, start_mention,
}
use agentfactory_gateway.Metrics.{reset_metrics}
use agentfactory_gateway.State.Manager.{StateManager}
use agentfactory_gateway.State.Stores.{json_manager}
use agentfactory_gateway.Interaction.Codec.{codec}
use agentfactory_gateway.Gateway.Connection.{is_connected, connection_error}
use agentfactory_gateway.Gateway.Events.{InnerEvent, app_mention}
use agentfactory_gateway.Gateway.Loop.{
  Received, on_connection, events_api, interactive, Loop, IsCounted, handled, receive_all,
  receive_all-IsCounted,
}
use agentfactory_gateway.Gateway.Start.{IsDeferred, task_of, start_mention-IsDeferred}

abbrev two_slots : TaskQueueConfig
two_slots = record { max_concurrent_tasks = pos 2; max_per_channel = pos 1 }

abbrev idle_world : World
idle_world = initial two_slots

abbrev message : MentionEvent
message = record { user = "U1"; text = "/dispatch build it"; channel = "C1"; time_stamp = "1.1" }

request_of_message :
    request_of message.text
    ≡ record { task = "build it"; task_type = ""; context = []; dispatch = true }
unfolding request_of is_dispatch_task has_prefix strip_dispatch_prefix after_prefix
request_of_message = refl

-- The task starts and finishes.
started :
    Reach
      (start_mention 2 true message (0, idle_world)).0.1
      (apply (finishes "task-1") (start_mention 2 true message (0, idle_world)).0.1)
started = next (finishes "task-1") here tt

start_mention-IsDeferred_example :
    ((start_mention 2 true message (0, idle_world)).1
      ≡ streamed (request_of message.text) (task_of 2 message 0))
    × IsDeferred
        (start_mention 5 true message
          (1, apply (finishes "task-1") (start_mention 2 true message (0, idle_world)).0.1)).1
unfolding new_queued_task started new_task_queue lookup channel_has_active_task count_if is_waiting
start_mention-IsDeferred_example =
    start_mention-IsDeferred 2 5 0 1 true message message (initial-Inv two_slots) refl refl refl
      refl started (refl, tt) refl

-- A connection, a message, a press that cannot be parsed, a message of a bot, and an error.
abbrev received : List (ℕ × Received)
received =
    (1, on_connection is_connected)
    ∷ (2, events_api (some (app_mention message)))
    ∷ (3, interactive none)
    ∷ (4, events_api (some (InnerEvent.message "bot_message" message)))
    ∷ (5, on_connection connection_error)
    ∷ []

abbrev store : StateManager
store = json_manager (λ records. none)

abbrev new_loop : Loop store.State
new_loop = record {
  store = some [];
  counter = 0;
  world = idle_world;
  connected = false;
  last_conn_at = 0;
}

receive_all-IsCounted_example :
    IsCounted (handled received) new_loop (receive_all store codec none true received new_loop)
unfolding reset_metrics
receive_all-IsCounted_example = receive_all-IsCounted store codec none true received new_loop refl
