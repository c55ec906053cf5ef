-- ===== src/Render/Layout.antt =====
-- gateway/renderer*.go: how many blocks a card has.
use agentfactory_gateway.Common.{
  ℕ, suc, ◌+◌, ◌*◌, ◌/◌, ◌≤◌, ◌≡◌, refl, ap, String, Option, some, none, List, [], ◌∷◌, ◌++◌, map,
  length, leb, arith, if◌then◌else◌, length-append, Bool, true, false, Option-cases, ◌/=◌, inl, inr,
}
use agentfactory_gateway.Common.Text.{join}
use agentfactory_gateway.Common.Float.{Float}
use agentfactory_gateway.Throttler.{
  SlackEvent, SlackEventType, start, progress, done, error, tool_call, paused, other,
}
use agentfactory_gateway.Protocol.{SubAgentInfo, EventPayload, ChainContext}
use agentfactory_gateway.Render.Kit.{
  divider, section_block, TaskData, only_if, footer_below_divider, footer_line, labelled,
  payload_or_zero,
}
use agentfactory_gateway.Render.Helpers.{build_agent_grid, build_agent_summary, grid_item}
use agentfactory_gateway.Render.Grid.{threes, build_agent_grid-threes}
use agentfactory_gateway.Render.Start.{build_start_blocks, build_dispatch_start_blocks}
use agentfactory_gateway.Render.Progress.{
  row_block, agent_blocks, subtask_tool_blocks, dispatch_card, build_dispatch_blocks,
  build_progress_blocks, dispatch_footer, progress_footer,
}
use agentfactory_gateway.Render.Done.{
  build_done_blocks, build_error_blocks, build_tool_call_blocks, done_footer, build_action_buttons,
  build_error_action_buttons,
}
use agentfactory_gateway.Render.Hitl.{
  design_text, feedback_text, build_review_card, build_git_review_card, review_card,
  git_review_card, chain_context_of, build_generic_pause_blocks, build_hitl_action_buttons,
  build_git_review_action_buttons, build_modification_log_card, review_footer,
}
use agentfactory_gateway.Render.Card.{build_task_card, card_by_type}

length-map {ℓ κ} :
    {A : Type ℓ} {B : Type κ} (f : A → B) (xs : List A) → length (map f xs) ≡ length xs
length-map f [] = refl
length-map f (x ∷ xs) = ap suc (length-map f xs)

length-append-le {ℓ} :
    {A : Type ℓ} (xs ys : List A) {m n : ℕ}
    → length xs ≤ m
    → length ys ≤ n
    → length (xs ++ ys) ≤ m + n
length-append-le xs ys h k = omega (arith, length-append xs ys)

length-threes :
    (xs : List String)
    → (length xs ≤ 3 * length (threes xs)) × (3 * length (threes xs) ≤ length xs + 2)
unfolding threes
length-threes [] = omega arith
length-threes (a ∷ []) = omega arith
length-threes (a ∷ b ∷ []) = omega arith
length-threes (a ∷ b ∷ c ∷ rest) = omega (arith, length-threes rest)

length-only_if-le {ℓ} : {A : Type ℓ} (b : Bool) (x : A) → length (only_if b (x ∷ [])) ≤ 1
length-only_if-le true x = omega arith
length-only_if-le false x = omega arith

length-footer_below_divider-le : (parts : List String) → length (footer_below_divider parts) ≤ 2
unfolding footer_below_divider
length-footer_below_divider-le [] = omega arith
length-footer_below_divider-le (p ∷ ps) = omega arith

length-footer_line-le : (parts : List String) → length (footer_line parts) ≤ 1
unfolding footer_line
length-footer_line-le [] = omega arith
length-footer_line-le (p ∷ ps) = omega arith

length-build_modification_log_card-le :
    (log : String) → length (build_modification_log_card log) ≤ 2
unfolding build_modification_log_card
length-build_modification_log_card-le log = ground arith

module _ (F : Float) where
  length-build_agent_grid :
      (agents : List (SubAgentInfo F))
      → (length agents ≤ 3 * length (build_agent_grid F agents))
        × (3 * length (build_agent_grid F agents) ≤ length agents + 2)
  length-build_agent_grid agents = rw (build_agent_grid-threes F agents) (
      omega (
        arith,
        length-map (grid_item F) agents,
        length-threes (map (grid_item F) agents),
        length-map (join "  |  ") (threes (map (grid_item F) agents)),
      ))

  -- A card of a dispatch has a row for each agent up to five agents, a row for each three agents,
  -- a begun three counted, up to fifteen, and two blocks above that: never more than five.
  pub length-agent_blocks :
      (agents : List (SubAgentInfo F))
      → (length (agent_blocks F agents) ≡ (
          if leb (length agents) 5
          then length agents
          else if leb (length agents) 15
          then (length agents + 2) / 3
          else 2))
        × (length (agent_blocks F agents) ≤ 5)
  unfolding agent_blocks build_agent_summary
  length-agent_blocks agents = ground (
    arith,
    length-map (row_block F) agents,
    length-map section_block (build_agent_grid F agents),
    length-build_agent_grid agents,
  )

  length-build_tool_call_blocks-le :
      (event : SlackEvent (EventPayload F)) → length (build_tool_call_blocks F event) ≤ 1
  unfolding build_tool_call_blocks
  length-build_tool_call_blocks-le event = ground arith

  length-subtask_tool_blocks-le : (p : EventPayload F) → length (subtask_tool_blocks F p) ≤ 1
  unfolding subtask_tool_blocks
  length-subtask_tool_blocks-le p = ground arith

  length-build_progress_blocks-le :
      (event : SlackEvent (EventPayload F)) (td : Option TaskData)
      → length (build_progress_blocks F event td) ≤ 6
  unfolding build_progress_blocks
  length-build_progress_blocks-le event td =
      let footer = footer_below_divider (progress_footer F (payload_or_zero F event) td) in
      omega (
        arith,
        length-append (build_tool_call_blocks F event) footer,
        length-build_tool_call_blocks-le event,
        length-footer_below_divider-le (progress_footer F (payload_or_zero F event) td),
      )

  length-dispatch_card-le :
      (p : EventPayload F) (td : Option TaskData) → length (dispatch_card F p td) ≤ 10
  unfolding dispatch_card
  length-dispatch_card-le p td = omega (
    arith,
    length-append-le (agent_blocks F p.agents ++ subtask_tool_blocks F p) _
        (length-append-le (agent_blocks F p.agents) _ (length-agent_blocks p.agents).1
          (length-subtask_tool_blocks-le p))
        (length-footer_below_divider-le (dispatch_footer F p td)),
  )

  length-build_dispatch_blocks-le :
      (event : SlackEvent (EventPayload F)) (td : Option TaskData)
      → length (build_dispatch_blocks F event td) ≤ 10
  unfolding build_dispatch_blocks
  length-build_dispatch_blocks-le event td = elim (Option-cases event.payload) [
    | inl e ↦ rw e (ground (arith, length-build_progress_blocks-le event td))
    | inr (p, e) ↦
        rw e
          (ground (arith, length-build_progress_blocks-le event td, length-dispatch_card-le p td))
  ]

  length-build_done_blocks-le :
      (event : SlackEvent (EventPayload F)) (td : Option TaskData)
      → length (build_done_blocks F event td) ≤ 6
  unfolding build_done_blocks build_action_buttons
  length-build_done_blocks-le event td =
      let p = payload_or_zero F event in
      let footer = footer_below_divider (done_footer F p td) in
      ground (
        arith,
        length-append footer build_action_buttons,
        length-footer_below_divider-le (done_footer F p td),
      )

  length-build_error_blocks-le :
      (event : SlackEvent (EventPayload F)) → length (build_error_blocks F event) ≤ 5
  unfolding build_error_blocks build_error_action_buttons
  length-build_error_blocks-le event =
      let parts = labelled "⏱\u{fe0f} " (payload_or_zero F event).elapsed_time in
      omega (
        arith,
        length-append (footer_below_divider parts) build_error_action_buttons,
        length-footer_below_divider-le parts,
      )

  length-git_review_card-le :
      (event : SlackEvent (EventPayload F)) (p : EventPayload F) (chain : ChainContext)
      (td : Option TaskData)
      → length (git_review_card F event p chain td) ≤ 6
  unfolding git_review_card build_git_review_action_buttons
  length-git_review_card-le event p chain td =
      let footer = footer_line (review_footer F p td) in
      ground (
        arith,
        length-append footer (build_git_review_action_buttons F event),
        length-footer_line-le (review_footer F p td),
      )

  length-review_card-le :
      (event : SlackEvent (EventPayload F)) (p : EventPayload F) (chain : ChainContext)
      (td : Option TaskData)
      → length (review_card F event p chain td) ≤ 9
  unfolding review_card build_hitl_action_buttons
  length-review_card-le event p chain td =
      let design =
        only_if (chain.design_doc /= "") (section_block (design_text chain.design_doc) ∷ []) in
      let log = build_modification_log_card chain.modification_log in
      let feedback = only_if chain.feedback_required (section_block feedback_text ∷ []) in
      let before : length ((design ++ log) ++ feedback) ≤ 4 =
        length-append-le (design ++ log) _
          (length-append-le design _ (length-only_if-le _ _)
            (length-build_modification_log_card-le chain.modification_log))
          (length-only_if-le chain.feedback_required (section_block feedback_text)) in
      omega (
        arith,
        length-append-le
            (((design ++ log) ++ feedback) ++ divider ∷ footer_line (review_footer F p td))
            (build_hitl_action_buttons F event) {n = 1}
            (length-append-le ((design ++ log) ++ feedback)
              (divider ∷ footer_line (review_footer F p td)) {n = 2} before
              (omega (arith, length-footer_line-le (review_footer F p td))))
            (omega arith),
      )

  length-build_git_review_card-le :
      (event : SlackEvent (EventPayload F)) (td : Option TaskData)
      → length (build_git_review_card F event td) ≤ 6
  unfolding build_git_review_card build_generic_pause_blocks build_hitl_action_buttons
  length-build_git_review_card-le event td = elim (Option-cases (chain_context_of F event)) [
    | inl e ↦ rw (e, build_git_review_card) (omega arith)
    | inr ((p, chain), e) ↦
        rw (e, build_git_review_card) (length-git_review_card-le event p chain td)
  ]

  length-build_review_card-le :
      (event : SlackEvent (EventPayload F)) (td : Option TaskData)
      → length (build_review_card F event td) ≤ 9
  unfolding build_review_card build_generic_pause_blocks build_hitl_action_buttons
  length-build_review_card-le event td = elim (Option-cases (chain_context_of F event)) [
    | inl e ↦ rw (e, build_review_card) (omega arith)
    | inr ((p, chain), e) ↦
        rw (e, build_review_card)
          (ground (
            arith,
            length-build_git_review_card-le event td,
            length-review_card-le event p chain td,
          ))
  ]

  length-card_by_type-le :
      (type : SlackEventType) (event : SlackEvent (EventPayload F)) (td : Option TaskData)
      → length (card_by_type F type event td) ≤ 10
  unfolding card_by_type build_start_blocks build_dispatch_start_blocks
  length-card_by_type-le start event td = ground arith
  length-card_by_type-le progress event td =
      ground
        (arith, length-build_dispatch_blocks-le event td, length-build_progress_blocks-le event td)
  length-card_by_type-le done event td = omega (arith, length-build_done_blocks-le event td)
  length-card_by_type-le error event td = omega (arith, length-build_error_blocks-le event)
  length-card_by_type-le tool_call event td = omega (arith, length-build_tool_call_blocks-le event)
  length-card_by_type-le paused event td = omega (arith, length-build_review_card-le event td)
  length-card_by_type-le (other _) event td = omega arith

  -- Whatever the event and the task data, and however many agents the event names, its card has at
  -- most ten blocks.
  pub length-build_task_card-le :
      (event : Option (SlackEvent (EventPayload F))) (td : Option TaskData)
      → length (build_task_card F event td) ≤ 10
  unfolding build_task_card
  length-build_task_card-le none td = omega arith
  length-build_task_card-le (some event) td = length-card_by_type-le event.type event td
