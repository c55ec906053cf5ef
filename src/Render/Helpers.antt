-- ===== src/Render/Helpers.antt =====
-- gateway/renderer_helpers.go: the progress bar, the grid, the summary and the rows of the agents.
use agentfactory_gateway.Common.{
  ℕ, suc, ◌+◌, String, ◌||◌, List, [], ◌∷◌, ◌++◌, if◌then◌else◌, ◌==◌, leb, is_zero,
}
use agentfactory_gateway.Common.Int.{ℤ, sub_from}
use agentfactory_gateway.Common.Text.{◌<>◌, concat, decimal, repeat, truncate}
use agentfactory_gateway.Common.Float.{Float}
use agentfactory_gateway.Protocol.{SubAgentInfo}
use agentfactory_gateway.Render.Kit.{Block, section_block, context_block}

abbrev pub progress_width : ℕ
progress_width = 10

unfoldable pub agent_emoji : String → String
agent_emoji role =
    if role == "db" || role == "database" || role == "model"
    then "🤖"
    else if role == "test" || role == "tests" || role == "qa"
    then "🧪"
    else if role == "docker" || role == "deploy" || role == "ops" || role == "devops"
    then "🐳"
    else if role == "doc" || role == "docs" || role == "writer"
    then "📝"
    else if role == "search" || role == "research"
    then "🔍"
    else "🤖"

unfoldable pub status_icon : String → String
status_icon status = if status == "done" then "✅" else if status == "error" then "❌" else "⏳"

-- doneCount, runCount and errCount.
pub record Counts : Type 0 where
  pub done : ℕ
  pub running : ℕ
  pub failed : ℕ

unfoldable pub summary_text : Counts → String
summary_text n = concat (
    "✅ "
    ∷ decimal n.done
    ∷ " done  |  ⏳ "
    ∷ decimal n.running
    ∷ " running  |  ❌ "
    ∷ decimal n.failed
    ∷ " error"
    ∷ [])

module _ (F : Float) where
  -- if progress < 0 { progress = 0 }; if progress > 1 { progress = 1 }
  unfoldable pub clamp : F.Carrier → F.Carrier
  clamp progress =
      let low = (if F.lt progress (F.of_nat 0) then F.of_nat 0 else progress) in
      if F.lt (F.of_nat 1) low then F.of_nat 1 else low

  -- The number of full characters of the bar.
  unfoldable pub filled : F.Carrier → ℤ
  unfolding clamp
  filled progress = F.trunc (F.mul (clamp progress) (F.of_nat progress_width))

  unfoldable pub render_progress_bar : F.Carrier → String
  render_progress_bar progress =
      repeat "█" (filled progress) <> repeat "░" (sub_from progress_width (filled progress))

  -- fmt.Sprintf("%.0f%%", progress*100)
  abbrev pub percent : F.Carrier → String
  percent progress = F.show (F.mul progress (F.of_nat 100)) <> "%"

  -- The text of an agent in the grid.
  unfoldable pub grid_item : SubAgentInfo F → String
  grid_item agent = concat (
      agent_emoji agent.role
      ∷ " "
      ∷ truncate 8 "" agent.agent_id
      ∷ " ["
      ∷ percent agent.progress
      ∷ "] "
      ∷ status_icon agent.status
      ∷ [])

  -- The loop of buildAgentGrid, with its rows, currentRow and cols.
  unfoldable pub grid_loop : List String → String → ℕ → List (SubAgentInfo F) → List String
  grid_loop rows current_row cols [] = if current_row == "" then rows else rows ++ current_row ∷ []
  grid_loop rows current_row cols (agent ∷ agents) =
      let row =
        (if is_zero cols then grid_item agent else current_row <> "  |  " <> grid_item agent) in
      let closed = grid_loop (rows ++ row ∷ []) "" 0 agents in
      let open_row = grid_loop rows row (cols + 1) agents in
      if leb 3 (cols + 1) then closed else open_row

  unfoldable pub build_agent_grid : List (SubAgentInfo F) → List String
  unfolding grid_loop
  build_agent_grid agents = grid_loop [] "" 0 agents

  unfoldable pub count_agents : Counts → List (SubAgentInfo F) → Counts
  count_agents n [] = n
  count_agents n (a ∷ agents) =
      count_agents
        (if a.status == "done"
          then record n { done = suc n.done }
          else if a.status == "error"
          then record n { failed = suc n.failed }
          else record n { running = suc n.running })
        agents

  unfoldable pub build_agent_summary : List (SubAgentInfo F) → List Block
  build_agent_summary agents =
      section_block
        (summary_text (count_agents (record { done = 0; running = 0; failed = 0 }) agents))
      ∷ context_block "[View details in thread →]"
      ∷ []

  unfoldable pub render_agent_row : SubAgentInfo F → String
  render_agent_row agent = concat (
      agent_emoji agent.role
      ∷ " "
      ∷ agent.agent_id
      ∷ "  ["
      ∷ render_progress_bar agent.progress
      ∷ "]  "
      ∷ percent agent.progress
      ∷ "  "
      ∷ status_icon agent.status
      ∷ " "
      ∷ (if agent.current_action == "" then "Processing..." else agent.current_action)
      ∷ [])
