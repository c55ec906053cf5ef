-- ===== src/Gateway/Tests.antt =====
-- Runs of gateway/slack.go, and each theorem about it at a concrete input.
use agentfactory_gateway.Common.{
  ◌≡◌, refl, [], ◌∷◌, str_dec, String, true, false, Option, none, some, All, text_ne,
}
use agentfactory_gateway.Common.Int.{pos}
use agentfactory_gateway.Metrics.{reset_metrics}
use agentfactory_gateway.Protocol.{EventPayload, zero_payload}
use agentfactory_gateway.Throttler.{SlackEvent, done, progress, tool_call}
use agentfactory_gateway.State.Json.{TaskRecord}
use agentfactory_gateway.State.Manager.{StateManager, HasStatus}
use agentfactory_gateway.State.Listing.{filed-ListsRunning}
use agentfactory_gateway.Worker.Stream.{new_stream_worker}
use agentfactory_gateway.Worker.Python.{new_python_worker}
use agentfactory_gateway.State.Stores.{json_manager, json_manager-IsLawful}
use agentfactory_gateway.Queue.State.{World, new_task_queue, count_of}
use agentfactory_gateway.Recovery.{RecoveryResult}
use agentfactory_gateway.Render.Fixed.{hundredths}
use agentfactory_gateway.Render.Card.{build_task_card, card_by_type, has_agents}
use agentfactory_gateway.Render.Done.{build_done_blocks, build_error_blocks}
use agentfactory_gateway.Interaction.Effects
use agentfactory_gateway.Interaction.Effects.{HitlHandler, InteractionCallback}
use agentfactory_gateway.Interaction.Buttons.{buttons_of}
use agentfactory_gateway.Interaction.Codec.{codec}
use agentfactory_gateway.Gateway.Stale.{done_then_progress-Stores}
use agentfactory_gateway.Render.Progress.{build_progress_blocks}
use agentfactory_gateway.Gateway.Connection.{Connection}
use agentfactory_gateway.Gateway.Stream
use agentfactory_gateway.Gateway.Stream.{Gateway, TaskState, Source, mention, on_event}
use agentfactory_gateway.Gateway.Recorded.{Stores, on_event-Stores}
use agentfactory_gateway.Gateway.Interactive.{stop, Stopping, reconcile_one}
use agentfactory_gateway.Gateway.Actions.{
  IsDead, finished_cards-AreDead, IsHalted, stop-IsInterrupted,
}
use agentfactory_gateway.Gateway.Reconciled.{reconcile_one-failed}
use agentfactory_gateway.Common.Dict.{lookup, insert}
use agentfactory_gateway.Gateway.ProgressCache.{
  should_persist, persisted, IsSpaced, persisted-IsSpaced,
}

debounced : persisted "t1" 10 ((5, "t1") ∷ (6, "t2") ∷ (13, "t1") ∷ []) (("t1", 3) ∷ []) ≡ 13 ∷ []
unfolding persisted should_persist lookup insert str_dec
debounced = refl

persisted-IsSpaced_example :
    IsSpaced 10 3
      (persisted "t1" 10 ((5, "t1") ∷ (6, "t2") ∷ (13, "t1") ∷ (20, "t1") ∷ []) (("t1", 3) ∷ []))
unfolding lookup str_dec
persisted-IsSpaced_example =
    persisted-IsSpaced "t1" 10 3 ((5, "t1") ∷ (6, "t2") ∷ (13, "t1") ∷ (20, "t1") ∷ [])
      (("t1", 3) ∷ []) refl

abbrev event : SlackEvent (EventPayload hundredths)
event = record { type = done; payload = some (record (zero_payload hundredths) { task_id = "t1" }) }

abbrev store : StateManager
store = json_manager (λ records. none)

abbrev world : World
world = record {
  tq = new_task_queue (record { max_concurrent_tasks = pos 2; max_per_channel = pos 1 });
  metrics = reset_metrics;
}

abbrev gateway : Gateway hundredths store
gateway = record { world = world; store = some []; cache = []; calls = [] }

abbrev session : TaskState
session = record {
  channel_id = "C1";
  ts = "1.1";
  task_data = record { channel_id = ""; ts = ""; model = ""; tokens = pos 0 };
}

abbrev replies : Stream.Answers
replies = record { now = 7; posted = none; visited = [] }

abbrev source : Source
source = mention "C1" "U1" "do it"

on_event-Stores_example :
    Stores hundredths store
      (on_event hundredths store 10 replies source event (gateway, session)).0.0.store
      "t1"
      "done"
unfolding zero_payload build_task_card card_by_type build_done_blocks
on_event-Stores_example =
    on_event-Stores hundredths store (json_manager-IsLawful (λ records. none)) (λ now rec s. refl)
      10 replies source event gateway session [] "done" _ _ refl refl refl (text_ne "t1" "" refl)

abbrev late_event : SlackEvent (EventPayload hundredths)
late_event = record {
  type = progress;
  payload = some (record (zero_payload hundredths) { task_id = "t1"; action = "half" });
}

done_then_progress-Stores_example :
    Stores hundredths store
      (on_event hundredths store 10 replies source late_event
        (on_event hundredths store 10 replies source event (gateway, session)).0).0.0.store
      "t1"
      "running"
unfolding zero_payload build_task_card card_by_type build_done_blocks build_progress_blocks
    should_persist lookup has_agents
done_then_progress-Stores_example =
    done_then_progress-Stores hundredths store (json_manager-IsLawful (λ records. none))
      (λ now rec s. refl) 10 replies replies source event late_event gateway session [] _ _ _ _ refl
      refl refl refl refl (text_ne "t1" "" refl) refl

tool_event : SlackEvent (EventPayload hundredths)
tool_event = record {
  type = tool_call;
  payload = some (record (zero_payload hundredths) {
    tool = some (record { name = "ls"; args = ""; result = "" });
  });
}

abbrev connection : Connection
connection = record {
  connected = true;
  last_conn_at = 3;
  metrics = record reset_metrics { connection_status = 1 };
}

abbrev pressing : InteractionCallback
pressing = record {
  block_actions = [];
  channel_id = "C1";
  user_id = "U1";
  message_ts = "1.1";
  trigger_id = "";
  private_metadata = "";
  state = none;
}

abbrev answers : Effects.Answers
answers = record { execute_error = none; open_view_fails = false }

abbrev handler : Option HitlHandler
handler = some (record { worker = true; state_mgr = true })

finished_cards-AreDead_example :
    All
      (IsDead codec answers handler pressing)
      (buttons_of (build_done_blocks hundredths event none))
    × All (IsDead codec answers handler pressing) (buttons_of (build_error_blocks hundredths event))
finished_cards-AreDead_example =
    finished_cards-AreDead hundredths codec answers handler pressing event none

abbrev running_record : TaskRecord
running_record = record {
  task_id = "t1";
  channel_id = "C1";
  slack_ts = "1.1";
  user_id = "U1";
  prompt = "do it";
  status = "running";
  updated_at = 3;
}

abbrev before : store.State
before = ("t1", running_record) ∷ []

-- A gateway with both workers, one of them with a process.
abbrev both_workers : Stopping store.State
both_workers = record {
  stopped = false;
  stop_ctx_cancelled = false;
  stream_worker = some (new_stream_worker "python3");
  worker = some (record (new_python_worker "python3") { cmd = some 7 });
  store = some before;
}

stop-IsInterrupted_example :
    IsHalted store 9
      (json_manager-IsLawful (λ records. none))
      (λ rec s. refl)
      both_workers
      (stop store 9 both_workers)
    × ((t : store.State) × ((stop store 9 both_workers).store ≡ some t)
        × ((id : String)
            → HasStatus store before id "running"
            → HasStatus store t id "interrupted"))
    × (stop store 9 (stop store 9 both_workers) ≡ stop store 9 both_workers)
unfolding lookup
stop-IsInterrupted_example =
    stop-IsInterrupted store 9 (json_manager-IsLawful (λ records. none)) (λ rec s. refl)
      both_workers before refl refl
      (filed-ListsRunning (λ records. none) before ((refl, tt), (refl, tt)))

abbrev stopped_result : RecoveryResult
stopped_result = record { task_id = "t1"; channel_id = "C1"; final_status = "error" }

reconcile_one-failed_example :
    ((reconcile_one 9 stopped_result world).0.running ≡ world.running)
    × ((reconcile_one 9 stopped_result world).0.waiting ≡ world.waiting)
    × ((c : String)
        → count_of c (reconcile_one 9 stopped_result world).0.channels ≡ count_of c world.channels)
    × ((reconcile_one 9 stopped_result world).1 ≡ none)
unfolding new_task_queue lookup
reconcile_one-failed_example =
    reconcile_one-failed 9 stopped_result world (text_ne "t1" "" refl) refl
      (text_ne "error" "done" refl) (text_ne "error" "running" refl)
