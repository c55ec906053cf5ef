-- ===== src/Gateway/Loop.antt =====
-- gateway/slack.go: the loop of Start, which gives each event of the socket to its handler, up to the call
-- of a worker. What the worker's callback does after that is in Gateway/Stream.
use agentfactory_gateway.Common.{
  String, sym, ap, if◌then◌else◌, ℕ, ◌+◌, ◌%◌, ◌≡◌, Bool, Option, none, some, List, [], ◌∷◌, arith,
  refl, ◌||◌, ◌==◌, ◌∙◌, Bool-cases, inl, inr,
}
use agentfactory_gateway.Metrics.{int64_mod, set_connection_status}
use agentfactory_gateway.Queue.State.{World, channel_has_active_task}
use agentfactory_gateway.Queue.Task.{QueuedTask, new_queued_task}
use agentfactory_gateway.Gateway.Stream.{generate_task_id}
use agentfactory_gateway.Queue.Methods.{
  EnqueueError, enqueue, append_waiting, mark_running_direct, register_direct,
}
use agentfactory_gateway.Interaction.Effects.{Json, HitlHandler, InteractionCallback, Answers}
use agentfactory_gateway.Gateway.Connection.{
  Connection, SocketEvent, connecting, connection_error, incoming_error, is_connected, other,
  on_socket_event, set_connected, status_metric, Agrees,
}
use agentfactory_gateway.Gateway.Interactive.{
  MentionEvent, Taken, by_hitl, by_stop_task, by_retry_task, handle_stop_task, handle_retry_task,
  ignored, handle_interactive_callback,
}
use agentfactory_gateway.State.Manager.{StateManager}
use agentfactory_gateway.Gateway.Mention.{MentionOutcome, waits, refused, start_mention}
use agentfactory_gateway.Gateway.Events.{
  InnerEvent, app_mention, message, unrecognized, count_event, handle_event,
}

-- An interactive event has its callback if that can be parsed, and whether it submits a modal.
pub data Received : Type 0 where
  events_api : Option InnerEvent → Received
  interactive : Option (Bool × Answers × InteractionCallback) → Received
  on_connection : SocketEvent → Received

-- What the handler of an event leads to; a press may start a task and reply.
pub data Reaction : Type 0 where
  starts : Option MentionOutcome → Reaction
  takes : Taken → Option MentionOutcome → List String → Reaction
  nothing : Reaction

pub record Loop (S : Type 0) : Type 0 where
  pub store : Option S
  pub counter : ℕ
  pub world : World
  pub connected : Bool
  pub last_conn_at : ℕ

abbrev pub connection_of : {S : Type 0} → Loop S → Connection
connection_of s = record {
  connected = s.connected;
  last_conn_at = s.last_conn_at;
  metrics = s.world.metrics;
}

abbrev pub with_connection : {S : Type 0} → Connection → Loop S → Loop S
with_connection c s = record s {
  world = record (s.world) { metrics = c.metrics };
  connected = c.connected;
  last_conn_at = c.last_conn_at;
}

module _ (M : StateManager) (J : Json) (hitl : Option HitlHandler) (has_stream : Bool) where
  -- What a press of the stop or the retry button does: the first stores the task as stopped, and the
  -- second handles the prompt of the channel's latest task as a message, if there is one. The calls of the
  -- handler of reviews stand in its outcome.
  unfoldable pub take :
      ℕ
      → InteractionCallback
      → Taken
      → Loop M.State
      → Loop M.State × Option MentionOutcome × List String
  unfolding handle_stop_task handle_retry_task
  take now callback (by_hitl outcome) s = (s, none, [])
  take now callback ignored s = (s, none, [])
  take now callback by_stop_task s =
      let (store, reply) = handle_stop_task M now callback s.store in
      (record s { store = store }, none, reply ∷ [])
  take now callback by_retry_task s =
      let (event, replies) = handle_retry_task M now callback s.store in
      elim event [
        | none ↦ (s, none, replies)
        | some e ↦
            let (state, outcome) = start_mention now has_stream e (s.counter, s.world) in
            (record s { counter = state.0; world = state.1 }, some outcome, replies)
      ]

  unfoldable pub receive : ℕ → Received → Loop M.State → Loop M.State × Reaction
  unfolding handle_event handle_interactive_callback on_socket_event count_event take
  receive now (events_api event) s =
      let (state, outcome) = handle_event now has_stream event (s.counter, s.world) in
      (record s { counter = state.0; world = state.1 }, starts outcome)
  receive now (interactive none) s =
      (record s { world = count_event s.world }, takes ignored none [])
  receive now (interactive (some (submits, answers, callback))) s =
      let taken = handle_interactive_callback J hitl answers submits callback in
      let (s', outcome, replies) =
        take now callback taken (record s { world = count_event s.world }) in
      (s', takes taken outcome replies)
  receive now (on_connection e) s =
      (with_connection (on_socket_event now e (connection_of s)) s, nothing)

  unfoldable pub receive_all : List (ℕ × Received) → Loop M.State → Loop M.State
  unfolding receive
  receive_all [] s = s
  receive_all ((now, r) ∷ more) s = receive_all more (receive now r s).0

-- How many of the events go to a handler.
abbrev pub handled : List (ℕ × Received) → ℕ
handled [] = 0
handled ((_, events_api _) ∷ more) = 1 + handled more
handled ((_, interactive _) ∷ more) = 1 + handled more
handled ((_, on_connection _) ∷ more) = handled more

-- The metrics that the queue does not touch.
abbrev pub Same : World → World → Type 0
Same v w =
    (v.metrics.total_events_processed ≡ w.metrics.total_events_processed)
    × (v.metrics.connection_status ≡ w.metrics.connection_status)

enqueue-Same : (task : QueuedTask) (w : World) → Same (enqueue (some task) w).0 w
unfolding enqueue append_waiting
enqueue-Same task w = (ground arith, ground arith)

mark_running_direct-Same :
    (now : ℕ) (task : QueuedTask) (w : World) → Same (mark_running_direct now task w) w
unfolding mark_running_direct register_direct
mark_running_direct-Same now task w = (ground arith, ground arith)

refused_or_waits-Same :
    (task : QueuedTask) (counter : ℕ) (w : World) (r : World × ℕ × Option EnqueueError)
    → Same r.0 w
    → Same
        (let (w', pos, err) = r in
          let o : (ℕ × World) × MentionOutcome = elim err [
            | some _ ↦ ((counter, w'), refused)
            | none ↦ ((counter, w'), waits pos task)
          ] in
          o.0.1)
        w
refused_or_waits-Same task counter w (w', pos, none) h = h
refused_or_waits-Same task counter w (w', pos, some e) h = h

start_mention-Same :
    (now : ℕ) (has_stream : Bool) (event : MentionEvent) (counter : ℕ) (w : World)
    → Same (start_mention now has_stream event (counter, w)).0.1 w
unfolding start_mention
start_mention-Same now has_stream event counter w =
    let (counter', id) = generate_task_id counter in
    let task = new_queued_task now id event.channel event.user event.text in
    elim (Bool-cases (channel_has_active_task event.channel w)) [
      | inl active ↦
          rw (active, start_mention)
            (refused_or_waits-Same task counter' w (enqueue (some task) w) (enqueue-Same task w))
      | inr idle ↦ elim (Bool-cases has_stream) [
        | inl streams ↦ rw (idle, streams, start_mention) (mark_running_direct-Same now task w)
        | inr none_there ↦ rw (idle, none_there, start_mention) (refl, refl)
      ]
    ]

handle_event-Same :
    (now : ℕ) (has_stream : Bool) (event : Option InnerEvent) (counter : ℕ) (w : World)
    → Same (handle_event now has_stream event (counter, w)).0.1 (count_event w)
unfolding handle_event
handle_event-Same now has_stream none counter w = (refl, refl)
handle_event-Same now has_stream (some (app_mention event)) counter w =
    start_mention-Same now has_stream event counter (count_event w)
handle_event-Same now has_stream (some (message subtype event)) counter w =
    elim (Bool-cases (subtype == "bot_message" || subtype == "message_changed")) [
      | inl skipped ↦ rw (skipped, handle_event) (refl, refl)
      | inr taken ↦
          rw (taken, handle_event) (start_mention-Same now has_stream event counter (count_event w))
    ]
handle_event-Same now has_stream (some unrecognized) counter w = (refl, refl)

-- After the state `v`, which `n` handled events make of `s`.
abbrev pub IsCounted : {S : Type 0} → ℕ → Loop S → Loop S → Type 0
IsCounted n s v =
    Agrees (connection_of v)
    × (v.world.metrics.total_events_processed % int64_mod
        ≡ (s.world.metrics.total_events_processed + n) % int64_mod)

on_connection-IsCounted :
    {S : Type 0} (now : ℕ) (e : SocketEvent) (s : Loop S)
    → Agrees (connection_of s)
    → IsCounted 0 s (with_connection (on_socket_event now e (connection_of s)) s)
unfolding on_socket_event set_connected status_metric set_connection_status
on_connection-IsCounted now connecting s a = (refl, omega arith)
on_connection-IsCounted now connection_error s a = (refl, omega arith)
on_connection-IsCounted now incoming_error s a = (refl, omega arith)
on_connection-IsCounted now is_connected s a = (refl, omega arith)
on_connection-IsCounted now other s a = (a, omega arith)

module _ (M : StateManager) (J : Json) (hitl : Option HitlHandler) (has_stream : Bool) where
  -- The metrics and the connection are as they were.
  abbrev IsAside : Loop M.State → Loop M.State → Type 0
  IsAside s s' = Same s'.world s.world × (s'.connected ≡ s.connected)

  retried-IsAside :
      (now : ℕ) (s : Loop M.State) (r : Option MentionEvent × List String)
      → IsAside s (
          let (event, replies) = r in
          let o : Loop M.State × Option MentionOutcome × List String = elim event [
            | none ↦ (s, none, replies)
            | some e ↦
                let (state, outcome) = start_mention now has_stream e (s.counter, s.world) in
                (record s { counter = state.0; world = state.1 }, some outcome, replies)
          ] in
          o.0)
  retried-IsAside now s (none, replies) = ((refl, refl), refl)
  retried-IsAside now s (some e, replies) =
      (start_mention-Same now has_stream e s.counter s.world, refl)

  take-IsAside :
      (now : ℕ) (callback : InteractionCallback) (t : Taken) (s : Loop M.State)
      → IsAside s (take M J hitl has_stream now callback t s).0
  unfolding take
  take-IsAside now callback (by_hitl outcome) s = ((refl, refl), refl)
  take-IsAside now callback ignored s = ((refl, refl), refl)
  take-IsAside now callback by_stop_task s = ((refl, refl), refl)
  take-IsAside now callback by_retry_task s =
      retried-IsAside now s (handle_retry_task M now callback s.store)

  receive-IsCounted :
      (now : ℕ) (r : Received) (s : Loop M.State)
      → Agrees (connection_of s)
      → IsCounted (handled ((now, r) ∷ [])) s (receive M J hitl has_stream now r s).0
  unfolding receive count_event
  receive-IsCounted now (events_api event) s a =
      let (total, status) = handle_event-Same now has_stream event s.counter s.world in
      (status ∙ a, omega (arith, total))
  receive-IsCounted now (interactive none) s a = (a, omega arith)
  receive-IsCounted now (interactive (some (submits, answers, callback))) s a =
      let s' = record s { world = count_event s.world } in
      let ((total, status), up) =
        take-IsAside now callback (handle_interactive_callback J hitl answers submits callback)
          s' in
      (status ∙ a ∙ ap (λ (b : Bool). if b then 1 else 0) (sym up), omega (arith, total))
  receive-IsCounted now (on_connection e) s a = on_connection-IsCounted now e s a

  handled-cons :
      (now : ℕ) (r : Received) (more : List (ℕ × Received))
      → handled ((now, r) ∷ more) ≡ handled ((now, r) ∷ []) + handled more
  handled-cons now (events_api _) more = omega arith
  handled-cons now (interactive _) more = omega arith
  handled-cons now (on_connection _) more = omega arith

  -- The loop of Start, over any events of the socket and up to the call of a worker: the status in the
  -- metrics agrees with the connection if it did before, and the number of processed events grows,
  -- modulo 2^64, by the events of the Events API and the interactive ones, also those that cannot be
  -- parsed, and by no others.
  pub receive_all-IsCounted :
      (events : List (ℕ × Received)) (s : Loop M.State)
      → Agrees (connection_of s)
      → IsCounted (handled events) s (receive_all M J hitl has_stream events s)
  unfolding receive_all
  receive_all-IsCounted [] s a = (a, omega arith)
  receive_all-IsCounted ((now, r) ∷ more) s a =
      let (a', one) = receive-IsCounted now r s a in
      let (b, rest) = receive_all-IsCounted more (receive M J hitl has_stream now r s).0 a' in
      (b, omega (arith, one, rest, handled-cons now r more))
