-- ===== src/Gateway/Interactive.antt =====
-- gateway/slack.go: the interactive callbacks, the stop and retry actions, Stop, and the bookkeeping
-- after a recovery. The replies are the texts posted to the callback's channel.
use agentfactory_gateway.Common.{
  ℕ, String, Bool, true, false, ◌||◌, Option, none, some, List, [], ◌∷◌, if◌then◌else◌, ◌==◌,
}
use agentfactory_gateway.Common.Text.{◌<>◌}
use agentfactory_gateway.State.Json.{TaskRecord}
use agentfactory_gateway.State.Manager.{StateManager}
use agentfactory_gateway.Queue.Task.{QueuedTask, running}
use agentfactory_gateway.Queue.State.{World}
use agentfactory_gateway.Queue.Methods.{mark_running_direct, release_terminal_task}
use agentfactory_gateway.Recovery.{RecoveryResult}
use agentfactory_gateway.Interaction.Effects.{
  Json, HitlHandler, InteractionCallback, Outcome, Answers,
}
use agentfactory_gateway.Worker.Stream.{StreamWorker, stop_worker}
use agentfactory_gateway.Worker.Python
use agentfactory_gateway.Worker.Python.{PythonWorker}
use mathlib.Core.Option.{map}
use agentfactory_gateway.Interaction.Handler.{handle_action, handle_view_submission}

-- slackevents.AppMentionEvent
pub record MentionEvent : Type 0 where
  pub user : String
  pub text : String
  pub channel : String
  pub time_stamp : String

-- Who takes an interactive callback.
pub data Taken : Type 0 where
  by_hitl : Outcome → Taken
  by_stop_task by_retry_task ignored : Taken

-- the switch on action.Value
unfoldable pub by_value : String → Taken
by_value value =
    if value == "stop_task"
    then by_stop_task
    else if value == "retry_task"
    then by_retry_task
    else ignored

-- handleInteractiveCallback after the parsing; no handler stands for a nil hitlHandler
unfoldable pub handle_interactive_callback :
    Json → Option HitlHandler → Answers → Bool → InteractionCallback → Taken
unfolding by_value
handle_interactive_callback J none answers true callback = ignored
handle_interactive_callback J (some h) answers true callback =
    by_hitl (handle_view_submission J h answers callback)
handle_interactive_callback J none answers false callback = elim callback.block_actions [
  | [] ↦ ignored
  | action ∷ _ ↦ by_value action.value
]
handle_interactive_callback J (some h) answers false callback =
    let (handled, outcome) = handle_action J h answers callback in
    if handled
    then by_hitl outcome
    else elim callback.block_actions [ [] ↦ ignored | action ∷ _ ↦ by_value action.value ]

-- the record with a task id and a status alone
abbrev pub status_record : String → String → TaskRecord
status_record id status = record {
  task_id = id;
  channel_id = "";
  slack_ts = "";
  user_id = "";
  prompt = "";
  status = status;
  updated_at = 0;
}

-- the first active task of the channel
unfoldable pub active_in : String → List TaskRecord → Option TaskRecord
active_in channel [] = none
active_in channel (rec ∷ active) =
    let rest = active_in channel active in if rec.channel_id == channel then some rec else rest

-- What Stop reads and changes of the gateway: the flag, stopCtx, and the workers and the store, each
-- there or nil.
pub record Stopping (S : Type 0) : Type 0 where
  pub stopped : Bool
  pub stop_ctx_cancelled : Bool
  pub stream_worker : Option StreamWorker
  pub worker : Option PythonWorker
  pub store : Option S

module _ (M : StateManager) (now : ℕ) where
  -- handleStopTask: the store and the reply
  unfoldable pub handle_stop_task : InteractionCallback → Option M.State → Option M.State × String
  handle_stop_task callback none = (none, "Task stop requested, but state manager is unavailable.")
  handle_stop_task callback (some s) = elim (active_in callback.channel_id (M.list_active s)) [
    | none ↦ (some s, "No active task found to stop.")
    | some rec ↦
        let (s', err) = M.set now (status_record rec.task_id "stopped") s in
        elim err [
          | some _ ↦ (some s', "Failed to stop the task.")
          | none ↦ (some s', "Task " <> rec.task_id <> " has been stopped.")
        ]
  ]

  -- handleRetryTask: the mention that is handled, or the reply
  unfoldable pub handle_retry_task :
      InteractionCallback → Option M.State → Option MentionEvent × List String
  handle_retry_task callback none =
      (none, "Task retry requested, but state manager is unavailable." ∷ [])
  handle_retry_task callback (some s) = elim (M.get_by_channel callback.channel_id s) [
    | none ↦ (none, "No task found to retry." ∷ [])
    | some rec ↦ if rec.prompt == "" then (none, "No task found to retry." ∷ []) else (
      some (record {
        user = callback.user_id;
        text = rec.prompt;
        channel = callback.channel_id;
        time_stamp = callback.message_ts;
      }),
      [],
    )
  ]

  -- The loop of Stop over the active tasks; the errors are only logged.
  unfoldable pub interrupt : List TaskRecord → M.State → M.State
  interrupt [] s = s
  interrupt (rec ∷ active) s =
      interrupt active (M.set now (status_record rec.task_id "interrupted") s).0

  -- Stop; a gateway that is made by NewSlackGateway has stopCancel.
  unfoldable pub stop : Stopping M.State → Stopping M.State
  unfolding interrupt stop_worker Python.stop
  stop g = if g.stopped then g else record {
    stopped = true;
    stop_ctx_cancelled = true;
    stream_worker = map stop_worker g.stream_worker;
    worker = map Python.stop g.worker;
    store = map (λ s. interrupt (M.list_active s) s) g.store;
  }

-- the task that ReconcileAfterRecovery registers
abbrev pub recovered_task : ℕ → RecoveryResult → QueuedTask
recovered_task now r = record {
  task_id = r.task_id;
  channel_id = r.channel_id;
  user_id = "";
  prompt = "";
  status = running;
  created_at = now;
  started_at = 0;
  slack_ts = "";
}

-- one round of ReconcileAfterRecovery: the queue and the task that it starts, if any
unfoldable pub reconcile_one : ℕ → RecoveryResult → World → World × Option QueuedTask
reconcile_one now r w =
    let w' = mark_running_direct now (recovered_task now r) w in
    if r.final_status == "done" || r.final_status == "error" || r.final_status == "stopped"
    then release_terminal_task now r.task_id (r.final_status == "done") w'
    else if r.final_status == "running"
    then (w', none)
    else release_terminal_task now r.task_id false w'

unfoldable pub reconcile_after_recovery : ℕ → List RecoveryResult → World → World × List QueuedTask
reconcile_after_recovery now [] w = (w, [])
reconcile_after_recovery now (r ∷ results) w =
    let (w', started) = reconcile_one now r w in
    let (w'', more) = reconcile_after_recovery now results w' in
    (w'', elim started [ none ↦ more | some t ↦ t ∷ more ])
