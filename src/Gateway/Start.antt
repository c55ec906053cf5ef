-- ===== src/Gateway/Start.antt =====
-- gateway/slack.go: which messages start a task at once. A message starts one only in a channel without
-- an active task, and such a start takes a slot of the channel that no section but a release gives back.
use agentfactory_gateway.Common.{
  ℕ, Option, Bool, true, false, none, some, ◌≡◌, refl, ◌≢◌, ap, sym, subst, text_ne,
}
use text.Mathlib.TextLemmas.{append-eq-nil_iff}
use agentfactory_gateway.Common.Dict.{lookup}
use agentfactory_gateway.Queue.Task.{QueuedTask, new_queued_task}
use agentfactory_gateway.Queue.State.{World, channel_has_active_task}
use agentfactory_gateway.Queue.Methods.{EnqueueError, enqueue, mark_running_direct}
use agentfactory_gateway.Queue.Sections.{Allowed, Reach, registers}
use agentfactory_gateway.Queue.Slots.{IsOwed}
use agentfactory_gateway.Queue.Invariant.{Inv}
use agentfactory_gateway.Queue.Leak.{HasNoRelease, channel_stays_active}
use agentfactory_gateway.Gateway.Stream.{generate_task_id}
use agentfactory_gateway.Gateway.Interactive.{MentionEvent}
use agentfactory_gateway.Gateway.Mention.{
  MentionOutcome, waits, refused, streamed, request_of, start_mention,
}

-- The message gives nothing to a worker: it waits, or it is refused.
abbrev pub IsDeferred : MentionOutcome → Type 0
IsDeferred (waits pos task) = Unit
IsDeferred refused = Unit
IsDeferred _ = ⊥

-- The task that a message makes.
abbrev pub task_of : ℕ → MentionEvent → ℕ → QueuedTask
task_of now event counter =
    new_queued_task now (generate_task_id counter).1 event.channel event.user event.text

deferred_lem :
    (err : Option EnqueueError) (pos : ℕ) (task : QueuedTask) (s s' : ℕ × World)
    → IsDeferred
        (elim err as (λ x. (ℕ × World) × MentionOutcome) [
          | some _ ↦ (s, refused)
          | none ↦ (s', waits pos task)
        ]).1
deferred_lem none pos task s s' = tt
deferred_lem (some e) pos task s s' = tt

active-IsDeferred :
    (now counter : ℕ) (has_stream : Bool) (event : MentionEvent) (w : World)
    → channel_has_active_task event.channel w ≡ true
    → IsDeferred (start_mention now has_stream event (counter, w)).1
unfolding start_mention
active-IsDeferred now counter has_stream event w active =
    let (w', pos, err) = enqueue (some (task_of now event counter)) w in
    let counter' : ℕ = (generate_task_id counter).0 in
    rw (active, start_mention)
      (deferred_lem err pos (task_of now event counter) (counter', w') (counter', w'))

start_mention-idle :
    (now counter : ℕ) (event : MentionEvent) (w : World)
    → channel_has_active_task event.channel w ≡ false
    → start_mention now true event (counter, w) ≡ (
      ((generate_task_id counter).0, mark_running_direct now (task_of now event counter) w),
      streamed (request_of event.text) (task_of now event counter),
    )
unfolding start_mention
start_mention-idle now counter event w idle = rw (idle, start_mention) refl

generate_task_id_ne : (counter : ℕ) → (generate_task_id counter).1 ≢ ""
unfolding generate_task_id
generate_task_id_ne counter h = text_ne "task-" "" refl (append-eq-nil_iff.0 h).0

-- With a stream worker, on a valid queue, a message in a channel without an active task, whose count is
-- the number of its waiting tasks, is streamed, when the new id neither waits nor runs; and after any
-- sequence of critical sections without a release, also when the task has finished, the next message in
-- the channel is given to no worker: it waits or is refused.
pub start_mention-IsDeferred :
    (now later counter counter' : ℕ) (has_stream : Bool) (event next_event : MentionEvent)
    {w v : World}
    → Inv w
    → IsOwed event.channel 0 w
    → channel_has_active_task event.channel w ≡ false
    → Allowed (registers now (task_of now event counter)) w
    → lookup (generate_task_id counter).1 w.running ≡ none
    → (r : Reach (start_mention now true event (counter, w)).0.1 v) → HasNoRelease r
    → next_event.channel ≡ event.channel
    → ((start_mention now true event (counter, w)).1
        ≡ streamed (request_of event.text) (task_of now event counter))
      × IsDeferred (start_mention later has_stream next_event (counter', v)).1
unfolding new_queued_task
start_mention-IsDeferred now later counter counter' b event next_event {w} {v} i owed idle allowed
      new r n same =
    let e = start_mention-idle now counter event w idle in
    (
      ap (λ (x : (ℕ × World) × MentionOutcome). x.1) e,
      active-IsDeferred later counter' b next_event v (rw same (stays e r n)),
    )
  where
    task : QueuedTask
    task = task_of now event counter

    stays :
        start_mention now true event (counter, w) ≡ (
          ((generate_task_id counter).0, mark_running_direct now task w),
          streamed (request_of event.text) task,
        )
        → (r : Reach (start_mention now true event (counter, w)).0.1 v) → HasNoRelease r
        → channel_has_active_task event.channel v ≡ true
    stays e =
        subst
          (λ (u : World).
            (r : Reach u v) → HasNoRelease r → channel_has_active_task event.channel v ≡ true)
          (sym (ap (λ (x : (ℕ × World) × MentionOutcome). x.0.1) e))
          (channel_stays_active 0 now task i owed allowed (generate_task_id_ne counter) new)
