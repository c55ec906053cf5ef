-- ===== src/Interaction/Buttons.antt =====
-- gateway/renderer_hitl.go and gateway/interaction_handler.go together: the buttons that the card of a
-- paused task puts, and what pressing one does.
use mathlib.Core.List.{append_assoc}
use agentfactory_gateway.Common.{
  String, Bool, true, false, Option, some, List, [], ◌∷◌, ◌++◌, if◌then◌else◌, ◌==◌, ◌/=◌, ◌≡◌, inl,
  inr, refl, ap, ◌∙◌, sym, arith, Option-cases, Bool-cases, All,
}
use agentfactory_gateway.Common.Float.{Float}
use agentfactory_gateway.Common.Text.{◌<>◌}
use agentfactory_gateway.Throttler.{SlackEvent}
use agentfactory_gateway.Protocol.{EventPayload, ChainContext}
use agentfactory_gateway.Interaction.Strings.{
  parse_value_payload, NoBar, split_bar-append, split_bar-NoBar,
}
use agentfactory_gateway.Interaction.Effects.{InteractionCallback}
use agentfactory_gateway.Render.Kit.{
  Block, Button, header, section, divider, context, actions, input, TaskData, only_if, footer_line,
  section_block,
}
use agentfactory_gateway.Render.Hitl.{
  value_payload, build_review_card, build_git_review_card, review_card, git_review_card,
  build_generic_pause_blocks, build_hitl_action_buttons, build_git_review_action_buttons,
  build_modification_log_card, chain_context_of, review_footer, git_status_text, design_text,
  feedback_text,
}

-- The buttons of a message.
unfoldable pub buttons_of : List Block → List Button
buttons_of [] = []
buttons_of (header _ ∷ blocks) = buttons_of blocks
buttons_of (section _ ∷ blocks) = buttons_of blocks
buttons_of (divider ∷ blocks) = buttons_of blocks
buttons_of (context _ _ ∷ blocks) = buttons_of blocks
buttons_of (actions _ buttons ∷ blocks) = buttons ++ buttons_of blocks
buttons_of (input _ _ _ _ ∷ blocks) = buttons_of blocks

-- The callback of a press of the button.
abbrev pub press : Button → InteractionCallback → InteractionCallback
press b c = record c { block_actions = record { action_id = b.action_id; value = b.value } ∷ [] }

abbrev pub map_ids : List Button → List String
map_ids [] = []
map_ids (b ∷ bs) = b.action_id ∷ map_ids bs

-- The buttons of a paused task's card are either of two groups of three.
pub data ReviewButtons (value : String) (buttons : List Button) : Type 0 where
  hitl :
      map_ids buttons ≡ "hitl_approve" ∷ "hitl_reject" ∷ "hitl_feedback" ∷ []
      → All (λ b. b.value ≡ value) buttons
      → ReviewButtons value buttons
  git :
      map_ids buttons ≡ "git_push" ∷ "git_rebase" ∷ "git_manual" ∷ []
      → All (λ b. b.value ≡ value) buttons
      → ReviewButtons value buttons

pub buttons_of-append :
    (xs ys : List Block) → buttons_of (xs ++ ys) ≡ buttons_of xs ++ buttons_of ys
unfolding buttons_of
buttons_of-append [] ys = refl
buttons_of-append (header _ ∷ xs) ys = buttons_of-append xs ys
buttons_of-append (section _ ∷ xs) ys = buttons_of-append xs ys
buttons_of-append (divider ∷ xs) ys = buttons_of-append xs ys
buttons_of-append (context _ _ ∷ xs) ys = buttons_of-append xs ys
buttons_of-append (actions _ bs ∷ xs) ys =
    ap (λ bs'. bs ++ bs') (buttons_of-append xs ys) ∙ sym (append_assoc bs _ _)
buttons_of-append (input _ _ _ _ ∷ xs) ys = buttons_of-append xs ys

pub quiet-append : (xs ys : List Block) → buttons_of xs ≡ [] → buttons_of (xs ++ ys) ≡ buttons_of ys
quiet-append xs ys h = buttons_of-append xs ys ∙ rw h refl

pub quiet_both :
    (xs ys : List Block) → buttons_of xs ≡ [] → buttons_of ys ≡ [] → buttons_of (xs ++ ys) ≡ []
quiet_both xs ys h k = quiet-append xs ys h ∙ k

parse_bar :
    (task channel : String)
    → NoBar task
    → parse_value_payload (if channel == "" then task else task <> "|" <> channel) ≡ (task, channel)
unfolding parse_value_payload
parse_bar task channel h = ground (arith, split_bar-append task channel, split_bar-NoBar task)

module _ (F : Float) where
  -- What the builder of the cards puts into the value of the buttons, the handler reads back: the
  -- task id and the channel id of the event, also where either is empty, for a task id without "|".
  pub parse_value_payload-value_payload :
      (event : SlackEvent (EventPayload F)) (p : EventPayload F)
      → event.payload ≡ some p
      → NoBar p.task_id
      → parse_value_payload (value_payload F event) ≡ (p.task_id, p.channel_id)
  unfolding value_payload
  parse_value_payload-value_payload event p e h =
      rw (e, value_payload) (parse_bar p.task_id p.channel_id h)

  footer_line-quiet : (parts : List String) → buttons_of (footer_line parts) ≡ []
  unfolding footer_line buttons_of
  footer_line-quiet [] = refl
  footer_line-quiet (x ∷ xs) = refl

  pub only_if-quiet :
      (test : Bool) (text : String) → buttons_of (only_if test (section_block text ∷ [])) ≡ []
  unfolding buttons_of
  only_if-quiet true text = refl
  only_if-quiet false text = refl

  modification_log-quiet : (log : String) → buttons_of (build_modification_log_card log) ≡ []
  unfolding build_modification_log_card buttons_of
  modification_log-quiet log = ground arith

  git_review_card-buttons :
      (event : SlackEvent (EventPayload F)) (p : EventPayload F) (chain : ChainContext)
      (td : Option TaskData)
      → buttons_of (git_review_card F event p chain td)
        ≡ buttons_of (build_git_review_action_buttons F event)
  unfolding git_review_card buttons_of
  git_review_card-buttons event p chain td =
      let status =
        only_if (chain.git_status_summary /= "")
          (section_block (git_status_text chain.git_status_summary) ∷ []) in
      let footer = footer_line (review_footer F p td) in
      quiet-append (status ++ divider ∷ footer) (build_git_review_action_buttons F event) (
        quiet_both status (divider ∷ footer)
          (only_if-quiet _ (git_status_text chain.git_status_summary))
          (footer_line-quiet (review_footer F p td)))

  review_card-buttons :
      (event : SlackEvent (EventPayload F)) (p : EventPayload F) (chain : ChainContext)
      (td : Option TaskData)
      → buttons_of (review_card F event p chain td) ≡ buttons_of (build_hitl_action_buttons F event)
  unfolding review_card buttons_of
  review_card-buttons event p chain td =
      let design =
        only_if (chain.design_doc /= "") (section_block (design_text chain.design_doc) ∷ []) in
      let log = build_modification_log_card chain.modification_log in
      let feedback = only_if chain.feedback_required (section_block feedback_text ∷ []) in
      let footer = footer_line (review_footer F p td) in
      quiet-append (((design ++ log) ++ feedback) ++ divider ∷ footer)
        (build_hitl_action_buttons F event)
        (quiet_both ((design ++ log) ++ feedback) (divider ∷ footer)
          (quiet_both (design ++ log) feedback
            (quiet_both design log
              (only_if-quiet (chain.design_doc /= "") (design_text chain.design_doc))
              (modification_log-quiet chain.modification_log))
            (only_if-quiet chain.feedback_required feedback_text))
          (footer_line-quiet (review_footer F p td)))

  hitl_buttons :
      (event : SlackEvent (EventPayload F))
      → ReviewButtons (value_payload F event) (buttons_of (build_hitl_action_buttons F event))
  unfolding build_hitl_action_buttons buttons_of
  hitl_buttons event = hitl refl (refl, (refl, (refl, tt)))

  git_buttons :
      (event : SlackEvent (EventPayload F))
      → ReviewButtons (value_payload F event) (buttons_of (build_git_review_action_buttons F event))
  unfolding build_git_review_action_buttons buttons_of
  git_buttons event = git refl (refl, (refl, (refl, tt)))

  generic_buttons :
      (event : SlackEvent (EventPayload F))
      → ReviewButtons (value_payload F event) (buttons_of (build_generic_pause_blocks F event))
  unfolding build_generic_pause_blocks buttons_of build_hitl_action_buttons
  generic_buttons event = hitl refl (refl, (refl, (refl, tt)))

  git_card_buttons :
      (event : SlackEvent (EventPayload F)) (td : Option TaskData)
      → ReviewButtons (value_payload F event) (buttons_of (build_git_review_card F event td))
  unfolding build_git_review_card
  git_card_buttons event td = elim (Option-cases (chain_context_of F event)) [
    | inl e ↦ rw (e, build_git_review_card) (generic_buttons event)
    | inr ((p, chain), e) ↦
        rw (e, build_git_review_card)
          (rw (git_review_card-buttons event p chain td) (git_buttons event))
  ]

  -- The card of a paused task, whatever its payload, has three buttons, those of the review or those
  -- of git, and each carries the value that names the event's task and channel.
  pub build_review_card-ReviewButtons :
      (event : SlackEvent (EventPayload F)) (td : Option TaskData)
      → ReviewButtons (value_payload F event) (buttons_of (build_review_card F event td))
  unfolding build_review_card
  build_review_card-ReviewButtons event td = elim (Option-cases (chain_context_of F event)) [
    | inl e ↦ rw (e, build_review_card) (generic_buttons event)
    | inr ((p, chain), e) ↦ elim (Bool-cases (chain.paused_step == "devops")) [
      | inl devops ↦ rw (e, build_review_card) (rw devops (git_card_buttons event td))
      | inr other ↦
          rw (e, build_review_card)
            (rw other (rw (review_card-buttons event p chain td) (hitl_buttons event)))
    ]
  ]
