-- ===== src/Gateway/Events.antt =====
-- gateway/slack.go: handleEvent, and the replies of handleMentionStream for the plain worker. The text of
-- an error of the worker is an argument.
use agentfactory_gateway.Common.{
  ℕ, String, Bool, ◌||◌, ◌≡◌, refl, ◌⊎◌, inl, inr, Option, none, some, if◌then◌else◌, ◌==◌, ◌/=◌,
}
use agentfactory_gateway.Common.Text.{◌<>◌}
use agentfactory_gateway.Metrics.{incr}
use agentfactory_gateway.Queue.State.{World}
use agentfactory_gateway.Gateway.Interactive.{MentionEvent}
use agentfactory_gateway.Gateway.Mention.{MentionOutcome, start_mention}
use agentfactory_gateway.Worker.Python.{TaskResponse, ExecuteError}

-- The inner event of an event of the Events API; a message has its subtype.
pub data InnerEvent : Type 0 where
  app_mention : MentionEvent → InnerEvent
  message : String → MentionEvent → InnerEvent
  unrecognized : InnerEvent

-- atomic.AddInt64(&totalEventsProcessed, 1)
unfoldable pub count_event : World → World
count_event w = record w {
  metrics = record (w.metrics) { total_events_processed = incr w.metrics.total_events_processed };
}

abbrev pub start_of : ℕ → Bool → MentionEvent → ℕ × World → (ℕ × World) × Option MentionOutcome
start_of now has_stream event state =
    let (state', outcome) = start_mention now has_stream event state in (state', some outcome)

-- handleEvent; none stands for data that is no event of the Events API. The request is acknowledged
-- in every case where there is one.
unfoldable pub handle_event :
    ℕ → Bool → Option InnerEvent → ℕ × World → (ℕ × World) × Option MentionOutcome
unfolding count_event start_mention
handle_event now has_stream none (counter, w) = ((counter, count_event w), none)
handle_event now has_stream (some (app_mention event)) (counter, w) =
    start_of now has_stream event (counter, count_event w)
handle_event now has_stream (some (message subtype event)) (counter, w) =
    if subtype == "bot_message" || subtype == "message_changed"
    then ((counter, count_event w), none)
    else start_of now has_stream event (counter, count_event w)
handle_event now has_stream (some unrecognized) (counter, w) = ((counter, count_event w), none)

-- the reply with what the plain worker answers
unfoldable pub plain_reply : (ExecuteError → String) → ExecuteError ⊎ TaskResponse → String
plain_reply show (inl err) = "Sorry, an error occurred: " <> show err
plain_reply show (inr resp) =
    if resp.error /= "" then "Task failed: " <> resp.error else resp.output

-- A message is handled exactly as a mention with its user, text and channel, whatever its subtype, but
-- for the subtypes bot_message and message_changed, which start nothing.
pub handle_event-message :
    (now : ℕ) (has_stream : Bool) (subtype : String) (event : MentionEvent) (state : ℕ × World)
    → handle_event now has_stream (some (message subtype event)) state ≡ (
        if subtype == "bot_message" || subtype == "message_changed"
        then handle_event now has_stream none state
        else handle_event now has_stream (some (app_mention event)) state)
unfolding handle_event
handle_event-message now has_stream subtype event (counter, w) = refl
