-- ===== src/Interaction/Effects.antt =====
-- gateway/interaction_handler.go: the types of the handler, and what it does to the outside as data.
-- encoding/json is a parameter; so are the answers of the worker and of Slack.
use agentfactory_gateway.Common.{String, Bool, false, Option, some, List, ◌==◌, ◌≡◌}
use agentfactory_gateway.Common.Dict.{Dict, lookup}
use agentfactory_gateway.Protocol.{Value}
use agentfactory_gateway.State.Json.{TaskRecord}
use agentfactory_gateway.Render.Kit.{Block}

pub data HitlDecision : Type 0 where
  approve reject feedback approve_push approve_rebase : HitlDecision

pub record ResumePayload : Type 0 where
  pub task_id : String
  pub decision : HitlDecision
  pub comment : String

-- protocol.TaskRequest
pub record TaskRequest : Type 0 where
  pub task : String
  pub task_type : String
  pub context : Dict Value
  pub dispatch : Bool

-- What the handler uses of encoding/json.
pub record Json : Type 0 where
  pub marshal_map : Dict String → String
  pub unmarshal_map : String → Option (Dict String)
  pub marshal_resume : ResumePayload → String

-- A map that was written is read back, up to the order of its keys, and its text is not empty.
pub record IsLawful (J : Json) : Type 0 where
  pub unmarshal-marshal :
      (d : Dict String)
      → (e : Dict String) × (J.unmarshal_map (J.marshal_map d) ≡ some e)
        × ((k : String) → lookup k e ≡ lookup k d)
  pub nonempty : (d : Dict String) → (J.marshal_map d == "") ≡ false

-- slack.ModalViewRequest, of type modal
pub record View : Type 0 where
  pub title : String
  pub submit : String
  pub close : String
  pub blocks : List Block
  pub private_metadata : String

pub record BlockAction : Type 0 where
  pub action_id : String
  pub value : String

-- slack.InteractionCallback. `state` is View.State.Values, by block id and action id, if View.State is
-- there.
pub record InteractionCallback : Type 0 where
  pub block_actions : List BlockAction
  pub channel_id : String
  pub user_id : String
  pub message_ts : String
  pub trigger_id : String
  pub private_metadata : String
  pub state : Option (Dict (Dict String))

-- The handler's worker and stateMgr, each there or nil. The client is always given.
pub record HitlHandler : Type 0 where
  pub worker : Bool
  pub state_mgr : Bool

-- What the calls answer: the error of Execute, and whether OpenView fails.
pub record Answers : Type 0 where
  pub execute_error : Option String
  pub open_view_fails : Bool

-- A call to the outside. The errors of Set, UpdateMessage and PostMessage are only logged.
pub data Effect : Type 0 where
  update_message : String → String → List Block → Effect
  post_message : String → String → Effect
  open_view : String → View → Effect
  execute : TaskRequest → Effect
  set_state : TaskRecord → Effect

-- The calls of the handler in order, and those of the goroutine that it starts, which run beside what
-- follows.
pub record Outcome : Type 0 where
  pub calls : List Effect
  pub spawned : List Effect
