-- ===== src/Render/Progress.antt =====
-- gateway/renderer_progress.go: the cards of a running task and of a dispatch to several agents.
use agentfactory_gateway.Common.{
  String, Option, none, some, List, [], ◌∷◌, ◌++◌, map, length, leb, if◌then◌else◌, ◌==◌, ◌/=◌,
  is_zero,
}
use agentfactory_gateway.Common.Int.{is_positive}
use agentfactory_gateway.Common.Text.{concat, show_int}
use agentfactory_gateway.Common.Float.{Float}
use agentfactory_gateway.Throttler.{SlackEvent}
use agentfactory_gateway.Protocol.{EventPayload, SubAgentInfo, ToolInfo}
use agentfactory_gateway.Render.Kit.{
  Block, header_block, section_block, only_if, labelled, footer_below_divider, TaskData, model_of,
  tokens_of, token_part, payload_or_zero,
}
use agentfactory_gateway.Render.Helpers.{
  percent, render_progress_bar, build_agent_grid, build_agent_summary, render_agent_row,
}
use agentfactory_gateway.Render.Done.{build_tool_call_blocks}

module _ (F : Float) where
  -- the progress of the event, brought into the unit interval
  unfoldable pub shown_progress : F.Carrier → F.Carrier
  shown_progress progress =
      let p = (if F.lt (F.of_nat 0) progress then progress else F.of_nat 0) in
      if F.lt (F.of_nat 1) p then F.of_nat 1 else p

  -- the code block with the bar and the percentage
  unfoldable pub bar_text : F.Carrier → String
  bar_text progress =
      concat ("```" ∷ render_progress_bar F progress ∷ "```  " ∷ percent F progress ∷ [])

  -- The parts of the footer of buildProgressBlocks.
  unfoldable pub progress_footer : EventPayload F → Option TaskData → List String
  progress_footer p task_data =
      labelled "🤖 " (model_of task_data)
      ++ labelled "🤖 " p.model
      ++ token_part (tokens_of task_data)
      ++ token_part p.tokens
      ++ labelled "⏱\u{fe0f} " p.elapsed_time

  unfoldable pub build_progress_blocks : SlackEvent (EventPayload F) → Option TaskData → List Block
  build_progress_blocks event task_data =
      let p = payload_or_zero F event in
      let action = (if p.action == "" then "Processing..." else p.action) in
      header_block "⏳ Processing..."
        ∷ section_block (bar_text (shown_progress p.progress))
        ∷ section_block (concat ("*Action:* " ∷ action ∷ []))
        ∷ build_tool_call_blocks F event
      ++ footer_below_divider (progress_footer p task_data)

  -- totalProgress
  unfoldable pub total_progress : F.Carrier → List (SubAgentInfo F) → F.Carrier
  total_progress total [] = total
  total_progress total (a ∷ agents) = total_progress (F.add total a.progress) agents

  unfoldable pub overall_progress : List (SubAgentInfo F) → F.Carrier
  overall_progress agents =
      let mean = F.div (total_progress (F.of_nat 0) agents) (F.of_nat (length agents)) in
      if F.lt (F.of_nat 1) mean then F.of_nat 1 else mean

  -- a full row in its code block
  abbrev pub row_block : SubAgentInfo F → Block
  row_block agent = section_block (concat ("```\n" ∷ render_agent_row F agent ∷ "\n```" ∷ []))

  -- Agent rows with Compact Mode
  unfoldable pub agent_blocks : List (SubAgentInfo F) → List Block
  agent_blocks agents =
      if leb (length agents) 5
      then map row_block agents
      else if leb (length agents) 15
      then map section_block (build_agent_grid F agents)
      else build_agent_summary F agents

  -- the text of the tool call of a subtask
  unfoldable pub subtask_tool_text : ToolInfo → String → String
  subtask_tool_text tool subtask_id = concat (
      "🔧 *"
      ∷ tool.name
      ∷ "* ("
      ∷ subtask_id
      ∷ ")"
      ∷ (if tool.args == "" then "" else concat ("\n*Args:* ```" ∷ tool.args ∷ "```" ∷ []))
      ∷ [])

  unfoldable pub subtask_tool_blocks : EventPayload F → List Block
  subtask_tool_blocks p = elim p.tool [
    | none ↦ []
    | some tool ↦
        only_if (p.subtask_id /= "") (section_block (subtask_tool_text tool p.subtask_id) ∷ [])
  ]

  -- The parts of the footer of buildDispatchBlocks.
  unfoldable pub dispatch_footer : EventPayload F → Option TaskData → List String
  dispatch_footer p task_data =
      labelled "🤖 " (if p.model == "" then model_of task_data else p.model)
      ++ only_if (is_positive p.total_agents)
          (concat ("👥 " ∷ show_int p.total_agents ∷ " agents active" ∷ []) ∷ [])
      ++ labelled "⏱\u{fe0f} " p.elapsed_time

  unfoldable pub dispatch_card : EventPayload F → Option TaskData → List Block
  dispatch_card p task_data =
      let overall = overall_progress p.agents in
      header_block (concat ("⏳ Dispatch: " ∷ percent F overall ∷ []))
        ∷ section_block (bar_text overall)
        ∷ agent_blocks p.agents
      ++ subtask_tool_blocks p
      ++ footer_below_divider (dispatch_footer p task_data)

  unfoldable pub build_dispatch_blocks : SlackEvent (EventPayload F) → Option TaskData → List Block
  build_dispatch_blocks event task_data = elim event.payload [
    | none ↦ build_progress_blocks event task_data
    | some p ↦
        if is_zero (length p.agents)
        then build_progress_blocks event task_data
        else dispatch_card p task_data
  ]
