-- ===== src/Render/Hitl.antt =====
-- gateway/renderer_hitl.go: the cards of a task that waits for a review.
use agentfactory_gateway.Common.{
  String, Option, none, some, List, [], ◌∷◌, ◌++◌, if◌then◌else◌, ◌==◌, ◌/=◌,
}
use agentfactory_gateway.Common.Text.{◌<>◌, concat, truncate}
use agentfactory_gateway.Common.Float.{Float}
use agentfactory_gateway.Throttler.{SlackEvent}
use agentfactory_gateway.Protocol.{EventPayload, ChainContext}
use agentfactory_gateway.Render.Kit.{
  Block, divider, actions, default, primary, danger, header_block, section_block, button, only_if,
  labelled, footer_line, TaskData, model_of,
}

unfoldable pub step_title : String → String × String
step_title step =
    if step == "architect"
    then ("Architect Design", "📐")
    else if step == "developer"
    then ("Developer Code", "💻")
    else if step == "reviewer"
    then ("Reviewer", "🔍")
    else if step == "planner"
    then ("Planner", "📋")
    else if step == "devops"
    then ("DevOps", "🚀")
    else (step, "⏸\u{fe0f}")

abbrev pub feedback_text : String
feedback_text = "💡 *Feedback required* — please provide your comments before approving."

unfoldable pub build_modification_log_card : String → List Block
build_modification_log_card log_content =
    if log_content == ""
    then []
    else section_block "*Modification Log:*"
      ∷ section_block (concat ("```" ∷ truncate 2500 "\n_(truncated)_" log_content ∷ "```" ∷ []))
      ∷ []

-- the text of the design document
unfoldable pub design_text : String → String
design_text design_doc =
    concat ("*Design Summary:*\n" ∷ truncate 2000 "...\n_(truncated)_" design_doc ∷ [])

-- the text of the git status
unfoldable pub git_status_text : String → String
git_status_text summary =
    concat ("*Git Status:*\n```" ∷ truncate 3000 "\n_(truncated)_" summary ∷ "```" ∷ [])

module _ (F : Float) where
  -- valuePayload
  unfoldable pub value_payload : SlackEvent (EventPayload F) → String
  value_payload event = elim event.payload [
    | none ↦ ""
    | some p ↦ if p.channel_id == "" then p.task_id else p.task_id <> "|" <> p.channel_id
  ]

  unfoldable pub build_hitl_action_buttons : SlackEvent (EventPayload F) → List Block
  build_hitl_action_buttons event =
      actions "hitl_actions" (
        button "hitl_approve" (value_payload event) "✅ Approve" primary
        ∷ button "hitl_reject" (value_payload event) "📝 Request Changes" danger
        ∷ button "hitl_feedback" (value_payload event) "💬 Give Feedback" default
        ∷ [])
      ∷ []

  unfoldable pub build_git_review_action_buttons : SlackEvent (EventPayload F) → List Block
  build_git_review_action_buttons event =
      actions "git_review_actions" (
        button "git_push" (value_payload event) "🚀 Push & PR" primary
        ∷ button "git_rebase" (value_payload event) "🔄 Rebase & Push" danger
        ∷ button "git_manual" (value_payload event) "📝 Manual" default
        ∷ [])
      ∷ []

  unfoldable pub build_generic_pause_blocks : SlackEvent (EventPayload F) → List Block
  build_generic_pause_blocks event =
      header_block "⏸\u{fe0f} Task Paused"
      ∷ section_block "The task has been paused and is awaiting your input."
      ∷ divider
      ∷ build_hitl_action_buttons event

  -- The parts of the footer of both review cards.
  unfoldable pub review_footer : EventPayload F → Option TaskData → List String
  review_footer p task_data =
      labelled "🤖 " (model_of task_data)
      ++ labelled "🤖 " p.model
      ++ labelled "⏱\u{fe0f} " p.elapsed_time

  -- buildGitReviewCard, with the payload and its chain context
  unfoldable pub git_review_card :
      SlackEvent (EventPayload F) → EventPayload F → ChainContext → Option TaskData → List Block
  git_review_card event p cc task_data =
      header_block
          (if cc.git_status_summary == "" then "⚠\u{fe0f} Git Pre-flight" else "🚀 DevOps Ready")
        ∷ section_block "The agent has completed git pre-flight checks. Choose an action below:"
        ∷ only_if (cc.git_status_summary /= "")
            (section_block (git_status_text cc.git_status_summary) ∷ [])
      ++ divider ∷ footer_line (review_footer p task_data)
      ++ build_git_review_action_buttons event

  -- buildReviewCard for a step other than devops, with the payload and its chain context
  unfoldable pub review_card :
      SlackEvent (EventPayload F) → EventPayload F → ChainContext → Option TaskData → List Block
  review_card event p cc task_data =
      let (title, emoji) = step_title cc.paused_step in
      header_block (concat ("⏸\u{fe0f} PAUSED: " ∷ title ∷ " Review" ∷ []))
        ∷ section_block (
            concat (
              emoji ∷ " The agent has paused at the **" ∷ title
              ∷ "** step and is awaiting your review." ∷ []))
        ∷ only_if (cc.design_doc /= "") (section_block (design_text cc.design_doc) ∷ [])
      ++ build_modification_log_card cc.modification_log
      ++ only_if cc.feedback_required (section_block feedback_text ∷ [])
      ++ divider ∷ footer_line (review_footer p task_data)
      ++ build_hitl_action_buttons event

  -- event.Payload and its ChainContext, where both are there
  unfoldable pub chain_context_of :
      SlackEvent (EventPayload F) → Option (EventPayload F × ChainContext)
  chain_context_of event = elim event.payload [
    | none ↦ none
    | some p ↦ elim p.chain_context [ none ↦ none | some cc ↦ some (p, cc) ]
  ]

  unfoldable pub build_git_review_card : SlackEvent (EventPayload F) → Option TaskData → List Block
  unfolding chain_context_of
  build_git_review_card event task_data = elim (chain_context_of event) [
    | none ↦ build_generic_pause_blocks event
    | some (p, cc) ↦ git_review_card event p cc task_data
  ]

  unfoldable pub build_review_card : SlackEvent (EventPayload F) → Option TaskData → List Block
  unfolding chain_context_of
  build_review_card event task_data = elim (chain_context_of event) [
    | none ↦ build_generic_pause_blocks event
    | some (p, cc) ↦
        if cc.paused_step == "devops"
        then build_git_review_card event task_data
        else review_card event p cc task_data
  ]
