-- ===== src/Worker/Stream/Dispatch.antt =====
-- worker/stream_worker.go: ExecuteDispatch, and the choice of the worker by Execute. What a process does
-- depends on the request that is written to it: `run`.
pub mod Agents
use agentfactory_gateway.Common.{
  ℕ, zero, suc, ◌+◌, String, Bool, true, ◌&&◌, Option, none, some, List, [], ◌∷◌, if◌then◌else◌,
  is_zero, ◌==◌, ◌/=◌, count_if,
}
use agentfactory_gateway.Common.Int.{pos}
use agentfactory_gateway.Common.Dict.{Dict, lookup, insert}
use agentfactory_gateway.Common.Float.{Float}
use agentfactory_gateway.Common.Text.{◌<>◌, decimal}
use agentfactory_gateway.Common.Strings.{split, trim_space}
use agentfactory_gateway.Protocol.{Value, flag, as_text, SubAgentInfo, EventPayload, zero_payload}
use agentfactory_gateway.Throttler.{SlackEvent, start}
use agentfactory_gateway.Interaction.Effects.{TaskRequest}
use agentfactory_gateway.Worker.Stream.{
  StreamWorker, Call, event, RunError, Process, execute_python,
}

-- strings.TrimSpace(p) != ""
abbrev pub is_named : String → Bool
is_named p = trim_space p /= ""

unfoldable pub estimate_agent_count : String → ℕ
unfolding split trim_space count_if
estimate_agent_count task =
    let count = count_if is_named (split b'|' task) in
    if task == "" then 1 else if is_zero count then 1 else count

-- roles[i], "agent" past the end
unfoldable pub role_at : ℕ → List String → String
role_at i [] = "agent"
role_at zero (role ∷ roles) = role
role_at (suc i) (role ∷ roles) = role_at i roles

-- req.Context["task_id"].(string), "" where it is no text
unfoldable pub context_task_id : Dict Value → String
unfolding lookup
context_task_id context = elim (lookup "task_id" context) [
  | none ↦ ""
  | some v ↦ elim (as_text v) [ none ↦ "" | some id ↦ id ]
]

module _ (F : Float) where
  unfoldable pub initial_agent : ℕ → SubAgentInfo F
  unfolding role_at decimal
  initial_agent i = record {
    agent_id = "agent-" <> decimal (i + 1);
    role = role_at i ("coordinator" ∷ "researcher" ∷ "developer" ∷ "tester" ∷ "reviewer" ∷ []);
    task = "";
    progress = F.of_nat 0;
    status = "running";
    current_action = "";
  }

  -- the loop from `i`, `n` rounds
  agents_from : ℕ → ℕ → List (SubAgentInfo F)
  agents_from i zero = []
  agents_from i (suc n) = initial_agent i ∷ agents_from (i + 1) n

  unfoldable pub build_initial_agents : ℕ → List (SubAgentInfo F)
  unfolding agents_from initial_agent
  build_initial_agents count = agents_from 0 count

  -- the request with which the Python worker is run
  unfoldable pub dispatched : TaskRequest → TaskRequest
  unfolding insert
  dispatched req = record req {
    dispatch = true;
    context = insert "dispatch_mode" (flag true) req.context;
  }

  unfoldable pub start_payload : TaskRequest → EventPayload F
  unfolding dispatched context_task_id estimate_agent_count build_initial_agents
  start_payload req =
      let count = estimate_agent_count req.task in
      record (zero_payload F) {
        task_id = context_task_id (dispatched req).context;
        user_input = req.task;
        task_type = "dispatch";
        total_agents = pos count;
        agents = build_initial_agents count;
      }

  unfoldable pub execute_dispatch :
      (String → Option (SlackEvent (EventPayload F)))
      → StreamWorker
      → (TaskRequest → Process)
      → TaskRequest
      → List (Call (SlackEvent (EventPayload F))) × Option RunError
  unfolding start_payload dispatched execute_python
  execute_dispatch decode w run req =
      let (calls, err) = execute_python decode w (run (dispatched req)) in
      (event (record { type = start; payload = some (start_payload req) }) ∷ calls, err)
