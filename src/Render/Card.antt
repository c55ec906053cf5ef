-- ===== src/Render/Card.antt =====
-- gateway/renderer.go: the card of an event and that of a queued task.
use agentfactory_gateway.Common.{
  String, Bool, false, Option, none, some, List, [], ◌∷◌, length, ltb, if◌then◌else◌, ◌==◌,
}
use agentfactory_gateway.Common.Int.{ℤ}
use agentfactory_gateway.Common.Text.{concat, show_int}
use agentfactory_gateway.Common.Float.{Float}
use agentfactory_gateway.Throttler.{
  SlackEvent, SlackEventType, start, progress, done, error, tool_call, paused, other,
}
use agentfactory_gateway.Protocol.{EventPayload}
use agentfactory_gateway.Render.Kit.{
  Block, divider, header_block, section_block, context_block, TaskData,
}
use agentfactory_gateway.Render.Start.{build_start_blocks, build_dispatch_start_blocks}
use agentfactory_gateway.Render.Progress.{build_progress_blocks, build_dispatch_blocks}
use agentfactory_gateway.Render.Done.{build_done_blocks, build_error_blocks, build_tool_call_blocks}
use agentfactory_gateway.Render.Hitl.{build_review_card}

module _ (F : Float) where
  -- p != nil && p.TaskType == "dispatch"
  unfoldable pub is_dispatch : Option (EventPayload F) → Bool
  is_dispatch none = false
  is_dispatch (some p) = p.task_type == "dispatch"

  -- p != nil && len(p.Agents) > 0
  unfoldable pub has_agents : Option (EventPayload F) → Bool
  has_agents none = false
  has_agents (some p) = ltb 0 (length p.agents)

  -- the switch on event.Type
  unfoldable pub card_by_type :
      SlackEventType → SlackEvent (EventPayload F) → Option TaskData → List Block
  card_by_type start event task_data =
      if is_dispatch event.payload
      then build_dispatch_start_blocks F event task_data
      else build_start_blocks F event
  card_by_type progress event task_data =
      if has_agents event.payload
      then build_dispatch_blocks F event task_data
      else build_progress_blocks F event task_data
  card_by_type done event task_data = build_done_blocks F event task_data
  card_by_type error event task_data = build_error_blocks F event
  card_by_type tool_call event task_data = build_tool_call_blocks F event
  card_by_type paused event task_data = build_review_card F event task_data
  card_by_type (other _) event task_data = []

  unfoldable pub build_task_card :
      Option (SlackEvent (EventPayload F)) → Option TaskData → List Block
  build_task_card none task_data = []
  build_task_card (some event) task_data = card_by_type event.type event task_data

unfoldable pub build_queued_card : ℤ → String → List Block
build_queued_card position task_id =
    header_block "📋 Task Queued"
    ∷ section_block (
        concat (
          "Position *#"
          ∷ show_int position
          ∷ "* in queue — your task will start automatically when the current task completes."
          ∷ []))
    ∷ divider
    ∷ context_block (concat ("Task ID: " ∷ task_id ∷ []))
    ∷ []
