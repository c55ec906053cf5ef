-- ===== src/Interaction/Modals.antt =====
-- gateway/interaction_handler.go: the modals, and the messages of the handler.
use agentfactory_gateway.Common.{String, Bool, true, false, List, [], ◌∷◌, if◌then◌else◌, ◌==◌}
use agentfactory_gateway.Common.Dict.{Dict}
use agentfactory_gateway.Interaction.Effects.{
  Json, View, Answers, Effect, update_message, post_message, open_view, InteractionCallback,
}
use agentfactory_gateway.Interaction.Strings.{parse_value_payload}
use agentfactory_gateway.Render.Kit.{Block, input, plain, header_block, section_block}

-- the action of the callback whose value is read
unfoldable pub first_value : InteractionCallback → String
first_value callback = elim callback.block_actions [ [] ↦ "" | action ∷ _ ↦ action.value ]

-- The values kept in a modal for its submission.
abbrev pub metadata : String → String → String → Dict String
metadata task_id mode user_id = ("task_id", task_id) ∷ ("mode", mode) ∷ ("user_id", user_id) ∷ []

abbrev pub text_input : String → String → String → String → String → Bool → Block
text_input block_id label hint placeholder action_id multiline =
    input block_id (plain label) (plain hint)
      (record { placeholder = plain placeholder; action_id = action_id; multiline = multiline })

module _ (J : Json) where
  unfoldable pub feedback_view : InteractionCallback → String → View
  feedback_view callback mode =
      let title = (if mode == "request_changes" then "Request Changes" else "Provide Feedback") in
      let hint : String = "Enter your feedback or change requests here..." in
      let (task_id, _) = parse_value_payload (first_value callback) in
      record {
        title = title;
        submit = "Send";
        close = "Cancel";
        blocks = text_input "feedback_input" title hint hint "feedback_text" true ∷ [];
        private_metadata = J.marshal_map (metadata task_id mode callback.user_id);
      }

  unfoldable pub rebase_view : InteractionCallback → View
  rebase_view callback =
      let (task_id, _) = parse_value_payload (first_value callback) in
      record {
        title = "Confirm Rebase & Push";
        submit = "Confirm";
        close = "Cancel";
        blocks =
            section_block
              "⚠\u{fe0f} *Rebase & Push*\n\nThis will rebase your current branch onto the target branch and then push. This may rewrite history."
            ∷ text_input "rebase_confirm_input" "Confirm (type YES to proceed)"
                "Type YES to confirm rebase & push" "Type YES to confirm" "rebase_confirm_text"
                false
            ∷ [];
        private_metadata = J.marshal_map (metadata task_id "rebase_confirm" callback.user_id);
      }

  unfoldable pub manual_view : InteractionCallback → View
  manual_view callback =
      let (task_id, _) = parse_value_payload (first_value callback) in
      record {
        title = "Manual Git Commands";
        submit = "Execute";
        close = "Cancel";
        blocks =
            section_block
              "📝 *Manual Git Commands*\n\nEnter the git commands you want to execute (one per line)."
            ∷ text_input "manual_commands_input" "Commands"
                "Enter git commands, one per line (e.g., git checkout main)"
                "git checkout main\ngit merge feature-branch" "manual_commands_text" true
            ∷ [];
        private_metadata = J.marshal_map (metadata task_id "manual_commands" callback.user_id);
      }

  -- OpenView, and the reply if it fails
  unfoldable pub open_modal : Answers → InteractionCallback → View → String → List Effect
  open_modal answers callback view failure =
      open_view callback.trigger_id view
      ∷ (if answers.open_view_fails then post_message callback.channel_id failure ∷ [] else [])

  unfoldable pub open_feedback_modal : Answers → InteractionCallback → String → List Effect
  unfolding open_modal feedback_view
  open_feedback_modal answers callback mode =
      open_modal answers callback (feedback_view callback mode)
        "⚠\u{fe0f} Failed to open feedback dialog. Please try again."

  unfoldable pub open_rebase_confirm_modal : Answers → InteractionCallback → List Effect
  unfolding open_modal rebase_view
  open_rebase_confirm_modal answers callback =
      open_modal answers callback (rebase_view callback)
        "⚠\u{fe0f} Failed to open confirmation dialog. Please try again."

  unfoldable pub open_manual_commands_modal : Answers → InteractionCallback → List Effect
  unfolding open_modal manual_view
  open_manual_commands_modal answers callback =
      open_modal answers callback (manual_view callback)
        "⚠\u{fe0f} Failed to open dialog. Please try again."

-- headerText and bodyText
unfoldable pub state_texts : String → String × String
state_texts state =
    if state == "approved"
    then ("✅ Approved", "You approved this step. The agent is resuming...")
    else if state == "push_initiated"
    then ("🚀 Push Initiated", "Push & PR command sent. The agent is executing...")
    else ("⏸\u{fe0f} Awaiting Response", "Action recorded.")

unfoldable pub update_message_to_state : String → String → String → List Effect
unfolding state_texts
update_message_to_state channel ts state =
    let (header_text, body_text) = state_texts state in
    if ts == ""
    then []
    else update_message channel ts (header_block header_text ∷ section_block body_text ∷ []) ∷ []
