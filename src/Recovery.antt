-- ===== src/Recovery.antt =====
-- gateway/recovery.go: what is done at start-up with the tasks that are recorded as running. The
-- worker's CheckStatus is a function of the task id. The calls of the Slack client are kept as a list;
-- their errors are only logged. `cancelled` says before each task whether the context is cancelled,
-- and false past its end.
pub mod Laws
mod Tests
use agentfactory_gateway.Common.{
  ℕ, String, Bool, true, false, ◌&&◌, ◌||◌, Option, none, some, List, [], ◌∷◌, ◌++◌, if◌then◌else◌,
  ◌==◌, ◌/=◌,
}
use agentfactory_gateway.Common.Int.{pos}
use agentfactory_gateway.Common.Text.{◌<>◌, concat}
use agentfactory_gateway.Common.Float.{Float}
use agentfactory_gateway.Protocol.{EventPayload, zero_payload}
use agentfactory_gateway.Throttler.{SlackEvent, done, error}
use agentfactory_gateway.State.Json.{TaskRecord}
use agentfactory_gateway.State.Manager.{StateManager}
use agentfactory_gateway.Render.Kit.{
  Block, header_block, section_block, context_block, divider, TaskData,
}
use agentfactory_gateway.Render.Card.{build_task_card}

pub record RecoveryResult : Type 0 where
  pub task_id : String
  pub channel_id : String
  pub final_status : String

pub data SlackCall : Type 0 where
  post : String → List Block → SlackCall
  update : String → String → List Block → SlackCall

-- the answer of CheckStatus
pub data Checked : Type 0 where
  reported : String → Checked
  failed : String → Checked

-- the switch on the status
unfoldable pub final_status_of : String → String
final_status_of s =
    if s == "done" || s == "completed"
    then "done"
    else if s == "error" || s == "failed"
    then "error"
    else if s == "timeout" || s == "timed_out"
    then "error"
    else if s == "running" || s == "in_progress"
    then "running"
    else "error"

-- the switch on the final status
unfoldable pub message_of : String → String
message_of s =
    if s == "done"
    then "✅ Recovered: Task completed successfully"
    else if s == "running"
    then "🔄 Recovered: Task still running"
    else if s == "error"
    then "❌ Recovered: Task failed"
    else ""

unfoldable pub recovery_header : String → String
recovery_header s =
    if s == "done"
    then "✅ Recovered: Done"
    else if s == "running"
    then "🔄 Recovered: Still Running"
    else if s == "error"
    then "❌ Recovered: Failed"
    else "📋 Recovered Task"

abbrev zero_task_data : TaskData
zero_task_data = record { channel_id = ""; ts = ""; model = ""; tokens = pos 0 }

module _ (F : Float) where
  -- the event for the final card
  unfoldable pub recovery_event : String → String → SlackEvent (EventPayload F)
  recovery_event status message =
      if status == "done"
      then record { type = done; payload = none }
      else record { type = error; payload = some (record (zero_payload F) { message = message }) }

  unfoldable pub build_recovery_blocks : String → String → String → List Block
  build_recovery_blocks status message task_id =
      header_block (recovery_header status)
        ∷ section_block message
        ∷ (if task_id == ""
            then []
            else divider ∷ context_block (concat ("Task ID: " ∷ task_id ∷ [])) ∷ [])
      ++ (if status == "done" || status == "error"
          then divider
            ∷ build_task_card F (some (recovery_event status message)) (some zero_task_data)
          else [])

  -- the part of updateRecoveredStatus that calls Slack
  unfoldable pub recovery_call : TaskRecord → String → String → List SlackCall
  recovery_call rec new_status message =
      let blocks = build_recovery_blocks new_status message rec.task_id in
      if rec.channel_id /= "" && rec.slack_ts /= ""
      then (if rec.slack_ts == ""
          then post rec.channel_id blocks ∷ []
          else update rec.channel_id rec.slack_ts blocks ∷ [])
      else []

-- the record that updateRecoveredStatus passes to Set
unfoldable pub recovered_record : TaskRecord → String → TaskRecord
recovered_record rec new_status = record {
  task_id = rec.task_id;
  channel_id = rec.channel_id;
  slack_ts = rec.slack_ts;
  user_id = "";
  prompt = "";
  status = new_status;
  updated_at = 0;
}

-- the final status and the message for an answer of CheckStatus
unfoldable pub classify : Checked → String × String
unfolding final_status_of message_of
classify (failed err) = ("error", "Recovery check failed: " <> err)
classify (reported s) = (final_status_of s, message_of (final_status_of s))

-- what recoverSingle returns, none with an error of Set
unfoldable pub result_of : TaskRecord → String → Option String → Option RecoveryResult
result_of rec final_status (some _) = none
result_of rec final_status none =
    some
      (record { task_id = rec.task_id; channel_id = rec.channel_id; final_status = final_status })

-- if err != nil { continue }; results = append(results, result)
abbrev pub one : Option RecoveryResult → List RecoveryResult
one none = []
one (some r) = r ∷ []

module _ (F : Float) (M : StateManager) (check : String → Checked) (now : ℕ) where
  -- The state, the calls and the error of Set.
  pub record Step : Type 0 where
    pub state : M.State
    pub calls : List SlackCall
    pub err : Option String

  unfoldable pub update_recovered_status : TaskRecord → String → String → M.State → Step
  update_recovered_status rec new_status message s =
      let (s', err) = M.set now (recovered_record rec new_status) s in
      record { state = s'; calls = recovery_call F rec new_status message; err = err }

  -- recoverSingle: the result, if there is no error
  unfoldable pub recover_single : TaskRecord → M.State → Step × Option RecoveryResult
  recover_single rec s =
      let (final_status, message) = classify (check rec.task_id) in
      let step = update_recovered_status rec final_status message s in
      (step, result_of rec final_status step.err)

  -- The state, the calls, the results, and whether ctx.Err() is returned.
  pub record Recovery : Type 0 where
    pub state : M.State
    pub calls : List SlackCall
    pub results : List RecoveryResult
    pub cancelled : Bool

  -- the loop of RecoverActiveTasks
  unfoldable pub recover_each : List Bool → List TaskRecord → M.State → Recovery
  recover_each cancelled [] s = record { state = s; calls = []; results = []; cancelled = false }
  recover_each (true ∷ cancelled) (rec ∷ active) s = record {
    state = s;
    calls = [];
    results = [];
    cancelled = true;
  }
  recover_each (false ∷ cancelled) (rec ∷ active) s =
      let (step, result) = recover_single rec s in
      let rest = recover_each cancelled active step.state in
      record rest { calls = step.calls ++ rest.calls; results = one result ++ rest.results }
  recover_each [] (rec ∷ active) s =
      let (step, result) = recover_single rec s in
      let rest = recover_each [] active step.state in
      record rest { calls = step.calls ++ rest.calls; results = one result ++ rest.results }

  unfoldable pub recover_active_tasks : List Bool → M.State → Recovery
  recover_active_tasks cancelled s = recover_each cancelled (M.list_active s) s
