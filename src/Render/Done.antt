-- ===== src/Render/Done.antt =====
-- gateway/renderer_done.go: the cards of a task that is done or failed, and of a tool call.
use agentfactory_gateway.Common.{
  String, Option, none, some, List, [], ◌∷◌, ◌++◌, if◌then◌else◌, ◌==◌, ◌/=◌,
}
use agentfactory_gateway.Common.Int.{is_zero_int}
use agentfactory_gateway.Common.Text.{concat}
use agentfactory_gateway.Common.Float.{Float}
use agentfactory_gateway.Throttler.{SlackEvent}
use agentfactory_gateway.Protocol.{EventPayload, ToolInfo}
use agentfactory_gateway.Render.Kit.{
  Block, actions, default, primary, danger, header_block, section_block, button, only_if, labelled,
  footer_below_divider, TaskData, model_of, tokens_of, token_part, payload_or_zero,
}

-- buildActionButtons
unfoldable pub build_action_buttons : List Block
build_action_buttons =
    actions "done_actions" (
      button "copy_code" "" "📋 Copy Code" default
      ∷ button "retry_task" "" "🔄 Retry" primary
      ∷ button "new_task" "" "📝 New Task" default
      ∷ [])
    ∷ []

-- buildErrorActionButtons
unfoldable pub build_error_action_buttons : List Block
build_error_action_buttons =
    actions "error_actions" (button "retry_task" "" "🔄 Retry" danger ∷ []) ∷ []

-- toolText
unfoldable pub tool_text : ToolInfo → String
tool_text tool = concat (
    "🔧 *"
    ∷ tool.name
    ∷ "*"
    ∷ (if tool.args == "" then "" else concat ("\n*Args:* ```" ∷ tool.args ∷ "```" ∷ []))
    ∷ (if tool.result == "" then "" else concat ("\n*Result:* ```" ∷ tool.result ∷ "```" ∷ []))
    ∷ [])

module _ (F : Float) where
  unfoldable pub tool_call_of : EventPayload F → List Block
  tool_call_of p = elim p.tool [ none ↦ [] | some tool ↦ section_block (tool_text tool) ∷ [] ]

  unfoldable pub build_tool_call_blocks : SlackEvent (EventPayload F) → List Block
  unfolding tool_call_of
  build_tool_call_blocks event = elim event.payload [ none ↦ [] | some p ↦ tool_call_of p ]

  -- The parts of the footer of buildDoneBlocks.
  unfoldable pub done_footer : EventPayload F → Option TaskData → List String
  done_footer p task_data =
      labelled "🤖 " (if p.model == "" then model_of task_data else p.model)
      ++ token_part (if is_zero_int p.tokens then tokens_of task_data else p.tokens)
      ++ labelled "⏱\u{fe0f} " p.elapsed_time

  unfoldable pub build_done_blocks : SlackEvent (EventPayload F) → Option TaskData → List Block
  build_done_blocks event task_data =
      let p = payload_or_zero F event in
      header_block "✅ Task Completed" ∷ only_if (p.output /= "") (section_block p.output ∷ [])
      ++ only_if (p.code /= "") (section_block (concat ("```" ∷ p.code ∷ "```" ∷ [])) ∷ [])
      ++ footer_below_divider (done_footer p task_data)
      ++ build_action_buttons

  unfoldable pub build_error_blocks : SlackEvent (EventPayload F) → List Block
  build_error_blocks event =
      let p = payload_or_zero F event in
      let msg = (if p.message == "" then "An unknown error occurred." else p.message) in
      header_block "❌ Task Failed"
        ∷ section_block (concat ("*Error:* " ∷ msg ∷ []))
        ∷ footer_below_divider (labelled "⏱\u{fe0f} " p.elapsed_time)
      ++ build_error_action_buttons
