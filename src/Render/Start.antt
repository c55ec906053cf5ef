-- ===== src/Render/Start.antt =====
-- gateway/renderer_start.go: the cards of a task that starts.
use agentfactory_gateway.Common.{String, Option, List, [], ◌∷◌, if◌then◌else◌, ◌==◌}
use agentfactory_gateway.Common.Text.{concat, show_int}
use agentfactory_gateway.Common.Float.{Float}
use agentfactory_gateway.Throttler.{SlackEvent}
use agentfactory_gateway.Protocol.{EventPayload}
use agentfactory_gateway.Render.Kit.{
  Block, divider, header_block, section_block, context_block, TaskData, payload_or_zero,
}

-- userInput := p.UserInput; if userInput == "" { userInput = "_No input provided_" }
unfoldable pub input_text : String → String
input_text user_input = if user_input == "" then "_No input provided_" else user_input

module _ (F : Float) where
  unfoldable pub build_start_blocks : SlackEvent (EventPayload F) → List Block
  build_start_blocks event =
      let p = payload_or_zero F event in
      header_block "🚀 Task Started"
      ∷ section_block (concat ("*Input:* " ∷ input_text p.user_input ∷ []))
      ∷ divider
      ∷ context_block "Initializing task..."
      ∷ []

  unfoldable pub build_dispatch_start_blocks :
      SlackEvent (EventPayload F) → Option TaskData → List Block
  build_dispatch_start_blocks event task_data =
      let p = payload_or_zero F event in
      header_block "⚡ Dispatch Started"
      ∷ section_block (concat ("*Input:* " ∷ input_text p.user_input ∷ []))
      ∷ divider
      ∷ context_block (concat ("Launching " ∷ show_int p.total_agents ∷ " agents..." ∷ []))
      ∷ []
