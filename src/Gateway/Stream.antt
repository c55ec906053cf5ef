-- ===== src/Gateway/Stream.antt =====
-- gateway/slack.go: the callbacks of a streaming task, that of dispatchQueuedTask for a task from the
-- queue and that of handleMentionStream for a message, which differ in what they tell the queue. The
-- calls to Slack are kept as a list; `posted` is the timestamp that PostMessage returns, none for an
-- error. A task that the queue starts is returned, for dispatchQueuedTask. `visited` is the order in
-- which the loops over the running tasks meet them.
use agentfactory_gateway.Common.{
  ℕ, String, Option, none, some, List, [], ◌∷◌, ◌++◌, if◌then◌else◌, ◌==◌,
}
use agentfactory_gateway.Common.Int.{is_positive}
use agentfactory_gateway.Common.Text.{◌<>◌, decimal}
use agentfactory_gateway.Common.Dict.{Dict}
use agentfactory_gateway.Common.Float.{Float}
use agentfactory_gateway.Metrics.{incr}
use agentfactory_gateway.Protocol.{EventPayload, zero_payload}
use agentfactory_gateway.Throttler.{
  SlackEvent, SlackEventType, start, progress, done, error, tool_call, paused, other,
}
use agentfactory_gateway.State.Json.{TaskRecord}
use agentfactory_gateway.State.Manager.{StateManager}
use agentfactory_gateway.Recovery.{SlackCall, post, update}
use agentfactory_gateway.Render.Kit.{Block, TaskData}
use agentfactory_gateway.Render.Card.{build_task_card}
use agentfactory_gateway.Queue.Task.{QueuedTask}
use agentfactory_gateway.Queue.State.{World, find_by_channel, first_in_channel}
use agentfactory_gateway.Queue.Methods.{mark_running, mark_done, mark_error, mark_dispatched}
use agentfactory_gateway.Gateway.ProgressCache.{should_persist}

-- taskState
pub record TaskState : Type 0 where
  pub channel_id : String
  pub ts : String
  pub task_data : TaskData

-- Whose events they are: a task from the queue, or a message of a user in a channel.
pub data Source : Type 0 where
  dequeued : QueuedTask → Source
  mention : String → String → String → Source

abbrev pub user_of : Source → String
user_of (dequeued task) = task.user_id
user_of (mention channel user text) = user

abbrev pub prompt_of : Source → String
prompt_of (dequeued task) = task.prompt
prompt_of (mention channel user text) = text

pub record Answers : Type 0 where
  pub now : ℕ
  pub posted : Option String
  pub visited : List QueuedTask

-- findRunningTaskID; `visited` is what ListRunning gives, in the order of its loop over the map
unfoldable pub find_running_task_id : List QueuedTask → String → String
unfolding first_in_channel
find_running_task_id visited channel = elim (first_in_channel channel visited) [
  | none ↦ ""
  | some t ↦ t.task_id
]

-- What each callback does with the queue for a start, a done and an error event.
unfoldable pub queue_start : Answers → Source → World → World
queue_start a (dequeued task) w = (mark_dispatched a.now task.task_id w).0
queue_start a (mention channel _ _) w = elim (find_by_channel a.visited channel w) [
  | none ↦ w
  | some t ↦ (mark_running a.now t.task_id w).0
]

unfoldable pub queue_done : Answers → Source → World → World × Option QueuedTask
queue_done a (dequeued task) w = mark_done a.now task.task_id w
queue_done a (mention channel _ _) w = mark_done a.now (find_running_task_id a.visited channel) w

unfoldable pub queue_error : Answers → Source → World → World × Option QueuedTask
queue_error a (dequeued task) w = mark_error a.now task.task_id w
queue_error a (mention channel _ _) w = mark_error a.now (find_running_task_id a.visited channel) w

-- What each callback does with the queue for an error of the stream.
unfoldable pub queue_failure : Answers → Source → World → World × Option QueuedTask
queue_failure a (dequeued task) w = mark_error a.now task.task_id w
queue_failure a (mention channel _ _) w = elim (find_by_channel a.visited channel w) [
  | none ↦ (w, none)
  | some t ↦ mark_error a.now t.task_id w
]

-- if evt.Payload.Model != "" { ... }; if evt.Payload.Tokens > 0 { ... }
unfoldable pub remember : {F : Float} → Option (EventPayload F) → TaskData → TaskData
remember none d = d
remember (some p) d = record d {
  model = if p.model == "" then d.model else p.model;
  tokens = if is_positive p.tokens then p.tokens else d.tokens;
}

-- the task id of the event, "" for none
abbrev pub task_id_of : {F : Float} → Option (EventPayload F) → String
task_id_of none = ""
task_id_of (some p) = p.task_id

-- generateTaskID, with the counter before
unfoldable pub generate_task_id : ℕ → ℕ × String
generate_task_id counter = (incr counter, "task-" <> decimal (incr counter))

-- The record that a callback stores; a progress event names the task and the status alone.
abbrev pub full_record : Source → TaskState → String → String → TaskRecord
full_record src ses id status = record {
  task_id = id;
  channel_id = ses.channel_id;
  slack_ts = ses.ts;
  user_id = if status == "running" then user_of src else "";
  prompt = if status == "running" then prompt_of src else "";
  status = status;
  updated_at = 0;
}

abbrev pub touch_record : String → TaskRecord
touch_record id = record {
  task_id = id;
  channel_id = "";
  slack_ts = "";
  user_id = "";
  prompt = "";
  status = "running";
  updated_at = 0;
}

module _ (F : Float) (M : StateManager) where
  -- The gateway as the callbacks see it; no store stands for a nil stateMgr.
  pub record Gateway : Type 0 where
    pub world : World
    pub store : Option M.State
    pub cache : Dict ℕ
    pub calls : List SlackCall

  unfoldable pub post_message : Answers → List Block → Gateway × TaskState → Gateway × TaskState
  post_message a blocks (g, ses) = (
    record g { calls = g.calls ++ post ses.channel_id blocks ∷ [] },
    elim a.posted [ none ↦ ses | some ts ↦ record ses { ts = ts } ],
  )

  unfoldable pub update_message : Answers → List Block → Gateway × TaskState → Gateway × TaskState
  update_message a blocks (g, ses) =
      if ses.ts == ""
      then post_message a blocks (g, ses)
      else (record g { calls = g.calls ++ update ses.channel_id ses.ts blocks ∷ [] }, ses)

  unfoldable pub post_error : Answers → String → Gateway × TaskState → Gateway × TaskState
  post_error a msg (g, ses) =
      let event : SlackEvent (EventPayload F) = record {
        type = error;
        payload = some (record (zero_payload F) { message = msg });
      } in
      let blocks = build_task_card F (some event) (some ses.task_data) in
      if ses.ts == "" then post_message a blocks (g, ses) else update_message a blocks (g, ses)

  -- if evt.Payload != nil && evt.Payload.TaskID != "" && g.stateMgr != nil { g.stateMgr.Set(rec) };
  -- the error is only logged
  unfoldable pub store_record : Answers → TaskRecord → Gateway → Gateway
  store_record a rec g = elim g.store [
    | none ↦ g
    | some s ↦ if rec.task_id == "" then g else record g { store = some (M.set a.now rec s).0 }
  ]

  unfoldable pub with_queue :
      (World → World × Option QueuedTask) → Gateway → Gateway × Option QueuedTask
  with_queue method g = let (w, started) = method g.world in (record g { world = w }, started)

  -- the debounced write for a progress event, every ten seconds
  unfoldable pub touch : ℕ → Answers → String → Gateway → Gateway
  touch cooldown a id g = elim g.store [
    | none ↦ g
    | some s ↦
        if id == ""
        then g
        else (let (cache, write) = should_persist a.now id cooldown g.cache in
            let g' = record g { cache = cache } in
            if write then store_record a (touch_record id) g' else g')
  ]

  abbrev pub Result : Type 0
  Result = (Gateway × TaskState) × Option QueuedTask

  -- the switch on evt.Type, with the card
  unfoldable pub on_type :
      ℕ → SlackEventType → Answers → Source → List Block → String → Gateway × TaskState → Result
  on_type cooldown start a src blocks id gs =
      let (g, ses) = post_message a blocks gs in
      let g' = record g { world = queue_start a src g.world } in
      ((store_record a (full_record src ses id "running") g', ses), none)
  on_type cooldown progress a src blocks id gs =
      let (g, ses) = update_message a blocks gs in ((touch cooldown a id g, ses), none)
  on_type cooldown paused a src blocks id gs =
      let (g, ses) = update_message a blocks gs in
      ((store_record a (full_record src ses id "paused") g, ses), none)
  on_type cooldown done a src blocks id gs =
      let (g, ses) = update_message a blocks gs in
      let (g', started) =
        with_queue (queue_done a src) (store_record a (full_record src ses id "done") g) in
      ((g', ses), started)
  on_type cooldown error a src blocks id gs =
      let (g, ses) = update_message a blocks gs in
      let (g', started) =
        with_queue (queue_error a src) (store_record a (full_record src ses id "error") g) in
      ((g', ses), started)
  on_type cooldown tool_call a src blocks id gs = (gs, none)
  on_type cooldown (other _) a src blocks id gs = (gs, none)

  -- the callback for an event; a card of no blocks is the nil of BuildTaskCard
  unfoldable pub on_event :
      ℕ → Answers → Source → SlackEvent (EventPayload F) → Gateway × TaskState → Result
  on_event cooldown a src event (g, ses) =
      elim (build_task_card F (some event) (some ses.task_data)) [
        | [] ↦ ((g, ses), none)
        | block ∷ blocks ↦
            on_type cooldown event.type a src (block ∷ blocks) (task_id_of event.payload)
              (g, record ses { task_data = remember event.payload ses.task_data })
      ]

  -- the callback for an error
  unfoldable pub on_failure : Answers → Source → String → Gateway × TaskState → Result
  on_failure a src msg (g, ses) =
      let w = g.world in
      let counted = record g {
        world = record w { metrics = record (w.metrics) { errors = incr w.metrics.errors } };
      } in
      let (g', ses') = post_error a msg (counted, ses) in
      let (g'', started) = with_queue (queue_failure a src) g' in ((g'', ses'), started)

  -- The gateway and the events of one task in their order.
  unfoldable pub on_events :
      ℕ
      → Source
      → List (Answers × SlackEvent (EventPayload F))
      → Gateway × TaskState
      → Gateway × TaskState
  on_events cooldown src [] gs = gs
  on_events cooldown src ((a, event) ∷ events) gs =
      on_events cooldown src events (on_event cooldown a src event gs).0
