-- ===== src/Gateway/Mention.antt =====
-- gateway/slack.go: the start of a task by a message, handleMentionStream up to the call of the worker.
-- The counter of the task ids stays below 2^63. The prefixes are ASCII: comparing characters compares bytes.
use agentfactory_gateway.Common.{
  ℕ, String, Bool, true, false, ◌||◌, none, some, [], if◌then◌else◌, ◌≡◌, refl,
}
use agentfactory_gateway.Common.Text.{◌<>◌}
use agentfactory_gateway.Common.Strings.{after_prefix, has_prefix, after_prefix-append}
use agentfactory_gateway.Queue.Task.{QueuedTask, new_queued_task}
use agentfactory_gateway.Queue.State.{World, channel_has_active_task}
use agentfactory_gateway.Queue.Methods.{enqueue, mark_running_direct}
use agentfactory_gateway.Interaction.Effects.{TaskRequest}
use agentfactory_gateway.Gateway.Stream.{generate_task_id}
use agentfactory_gateway.Gateway.Interactive.{MentionEvent}

unfoldable pub is_dispatch_task : String → Bool
is_dispatch_task text = has_prefix "/dispatch " text || has_prefix "/dispatch\t" text

unfoldable pub strip_dispatch_prefix : String → String
strip_dispatch_prefix text = elim (after_prefix "/dispatch " text) [
  | some rest ↦ rest
  | none ↦ elim (after_prefix "/dispatch\t" text) [ some rest ↦ rest | none ↦ text ]
]

-- taskText and req
unfoldable pub request_of : String → TaskRequest
request_of text =
    if is_dispatch_task text
    then record { task = strip_dispatch_prefix text; task_type = ""; context = []; dispatch = true }
    else record { task = text; task_type = ""; context = []; dispatch = false }

-- What a message leads to: it waits at a position, it is refused, it is streamed by ExecuteDispatch or
-- Execute under a task, or it is given to the plain worker.
pub data MentionOutcome : Type 0 where
  waits : ℕ → QueuedTask → MentionOutcome
  refused : MentionOutcome
  streamed : TaskRequest → QueuedTask → MentionOutcome
  plain_worker : TaskRequest → MentionOutcome

unfoldable pub start_mention : ℕ → Bool → MentionEvent → ℕ × World → (ℕ × World) × MentionOutcome
start_mention now has_stream event (counter, w) =
    let (counter', id) = generate_task_id counter in
    let task = new_queued_task now id event.channel event.user event.text in
    if channel_has_active_task event.channel w
    then (let (w', pos, err) = enqueue (some task) w in
        elim err [ some _ ↦ ((counter', w'), refused) | none ↦ ((counter', w'), waits pos task) ])
    else if has_stream
    then ((counter', mark_running_direct now task w), streamed (request_of event.text) task)
    else ((counter, w), plain_worker (request_of event.text))

is_dispatch_task-found :
    (text rest : String) → after_prefix "/dispatch " text ≡ some rest → is_dispatch_task text ≡ true
unfolding is_dispatch_task has_prefix
is_dispatch_task-found text rest found = rw (found, is_dispatch_task, has_prefix) refl

strip_dispatch_prefix-found :
    (text rest : String)
    → after_prefix "/dispatch " text ≡ some rest
    → strip_dispatch_prefix text ≡ rest
unfolding strip_dispatch_prefix
strip_dispatch_prefix-found text rest found = rw (found, strip_dispatch_prefix) refl

request_of-found :
    (text rest : String)
    → after_prefix "/dispatch " text ≡ some rest
    → ((request_of text).dispatch ≡ true) × ((request_of text).task ≡ rest)
unfolding request_of
request_of-found text rest found =
    rw (is_dispatch_task-found text rest found, request_of)
      (refl, strip_dispatch_prefix-found text rest found)

-- A text that begins with "/dispatch " is dispatched to several agents, without the prefix.
pub request_of-dispatch :
    (text : String)
    → ((request_of ("/dispatch " <> text)).dispatch ≡ true)
      × ((request_of ("/dispatch " <> text)).task ≡ text)
request_of-dispatch text =
    request_of-found ("/dispatch " <> text) text (after_prefix-append "/dispatch " text)
