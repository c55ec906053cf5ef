-- ===== src/Protocol.antt =====
-- protocol/protocol.go: the payload of a streaming event. A float64 is of the type `F.Carrier`. The
-- events themselves are in Throttler.
use agentfactory_gateway.Common.{String, Bool, Option, none, some, List, []}
use agentfactory_gateway.Common.Int.{ℤ, pos}
use agentfactory_gateway.Common.Float.{Float}

-- An entry of the context of a request: the interface values that the sources put there.
pub data Value : Type 0 where
  text : String → Value
  flag : Bool → Value

-- v.(string)
abbrev pub as_text : Value → Option String
as_text (text s) = some s
as_text (flag b) = none

pub record ToolInfo : Type 0 where
  pub name : String
  pub args : String
  pub result : String

pub record ButtonAction : Type 0 where
  pub text : String
  pub value : String
  pub style : String
  pub type : String

pub record SubAgentInfo (F : Float) : Type 0 where
  pub agent_id : String
  pub role : String
  pub task : String
  pub progress : F.Carrier
  pub status : String
  pub current_action : String

pub record ChainContext : Type 0 where
  pub paused_step : String
  pub design_doc : String
  pub modification_log : String
  pub feedback_required : Bool
  pub git_status_summary : String

pub record EventPayload (F : Float) : Type 0 where
  pub task_id : String
  pub channel_id : String
  pub timestamp : String
  pub action : String
  pub user_input : String
  pub total_steps : ℤ
  pub current_step : ℤ
  pub task_type : String
  pub total_agents : ℤ
  pub agents : List (SubAgentInfo F)
  pub subtask_id : String
  pub progress : F.Carrier
  pub model : String
  pub output : String
  pub code : String
  pub tool : Option ToolInfo
  pub actions : List ButtonAction
  pub tokens : ℤ
  pub elapsed_time : String
  pub message : String
  pub chain_context : Option ChainContext

-- &protocol.EventPayload{}
unfoldable pub zero_payload : (F : Float) → EventPayload F
zero_payload F = record {
  task_id = "";
  channel_id = "";
  timestamp = "";
  action = "";
  user_input = "";
  total_steps = pos 0;
  current_step = pos 0;
  task_type = "";
  total_agents = pos 0;
  agents = [];
  subtask_id = "";
  progress = F.of_nat 0;
  model = "";
  output = "";
  code = "";
  tool = none;
  actions = [];
  tokens = pos 0;
  elapsed_time = "";
  message = "";
  chain_context = none;
}
