-- ===== src/Recovery/Tests.antt =====
-- A recovery of three tasks, and each theorem about recovery at a concrete input.
use agentfactory_gateway.Common.{String, true, false, ◌≡◌, none, [], ◌∷◌, All, if◌then◌else◌, ◌==◌}
use agentfactory_gateway.Common.Dict.{Dict}
use agentfactory_gateway.Render.Fixed.{hundredths}
use agentfactory_gateway.State.Json.{TaskRecord}
use agentfactory_gateway.State.Manager.{StateManager}
use agentfactory_gateway.State.Stores.{json_manager, json_manager-IsLawful}
use agentfactory_gateway.Recovery.{Checked, reported, failed, recover_active_tasks, recover_each}
use agentfactory_gateway.Recovery.Laws.{
  Recorded, recover_active_tasks-Recorded, recover_each-cancelled,
}

abbrev store : StateManager
store = json_manager (λ records. none)

abbrev task : String → String → TaskRecord
task id ts = record {
  task_id = id;
  channel_id = "C1";
  slack_ts = ts;
  user_id = "U1";
  prompt = "do";
  status = "running";
  updated_at = 5;
}

abbrev stored : Dict TaskRecord
stored = ("t1", task "t1" "1.1") ∷ ("t2", task "t2" "") ∷ ("t3", task "t3" "1.3") ∷ []

abbrev check : String → Checked
check id =
    if id == "t1"
    then reported "completed"
    else if id == "t2"
    then failed "no worker"
    else reported "odd"

recover_active_tasks-Recorded_example :
    All
      (Recorded hundredths store check 9
        (json_manager-IsLawful (λ records. none))
        (recover_active_tasks hundredths store check 9 (false ∷ true ∷ []) stored).state)
      (recover_active_tasks hundredths store check 9 (false ∷ true ∷ []) stored).results
recover_active_tasks-Recorded_example =
    recover_active_tasks-Recorded hundredths store check 9 (json_manager-IsLawful (λ records. none))
      (false ∷ true ∷ []) stored

recover_each-cancelled_example :
    recover_each hundredths store check 9
      (false ∷ true ∷ [])
      (task "t1" "1" ∷ task "t2" "2" ∷ [])
      stored
    ≡ record (recover_each hundredths store check 9 [] (task "t1" "1" ∷ []) stored) {
      cancelled = true;
    }
recover_each-cancelled_example =
    recover_each-cancelled hundredths store check 9 1 (task "t1" "1" ∷ task "t2" "2" ∷ []) stored
