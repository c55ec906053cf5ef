-- ===== src/Interaction/Tests.antt =====
-- Presses and submissions on small inputs, and each theorem about them at a concrete input.
use agentfactory_gateway.Common.{
  String, true, false, Option, none, some, [], ◌∷◌, ◌++◌, if◌then◌else◌, ◌==◌, ◌≡◌, inl, refl,
  arith, str_dec,
}
use agentfactory_gateway.Common.Dict.{Dict, lookup}
use agentfactory_gateway.Common.Text.{◌<>◌}
use agentfactory_gateway.Protocol.{EventPayload, zero_payload}
use agentfactory_gateway.Throttler.{SlackEvent, paused}
use agentfactory_gateway.Render.Fixed.{hundredths}
use agentfactory_gateway.Render.Hitl.{value_payload}
use agentfactory_gateway.Common.Strings.{trim_space}
use agentfactory_gateway.Interaction.Strings.{parse_value_payload, to_upper}
use agentfactory_gateway.Interaction.Effects.{
  HitlDecision, reject, feedback, Answers, HitlHandler, InteractionCallback, Outcome, execute,
  set_state, post_message, View,
}
use agentfactory_gateway.Interaction.Modals.{feedback_view, update_message_to_state, first_value}
use agentfactory_gateway.Interaction.Handler.{
  resuming, resume_request, task_of, channel_of, mark_resuming, send_resume, value_at,
  handle_view_submission,
}
use agentfactory_gateway.Interaction.Buttons.{parse_value_payload-value_payload}
use agentfactory_gateway.Interaction.Submission.{IsSubmission, feedback_view-submit}
use agentfactory_gateway.Interaction.Codec.{codec, codec-IsLawful}

abbrev payload : EventPayload hundredths
payload = record (zero_payload hundredths) { task_id = "t1"; channel_id = "C1" }

abbrev event : SlackEvent (EventPayload hundredths)
event = record { type = paused; payload = some payload }

abbrev handler : HitlHandler
handler = record { worker = true; state_mgr = true }

abbrev answers : Answers
answers = record { execute_error = some "gone"; open_view_fails = false }

abbrev callback : String → String → Option (Dict (Dict String)) → InteractionCallback
callback value metadata state = record {
  block_actions = record { action_id = "hitl_approve"; value = value } ∷ [];
  channel_id = "C9";
  user_id = "U1";
  message_ts = "1.2";
  trigger_id = "x";
  private_metadata = metadata;
  state = state;
}

shouted : to_upper (trim_space "  yeſ \n") ≡ "YES"
unfolding to_upper trim_space str_dec
shouted = refl

parse_value_payload-value_payload_example :
    parse_value_payload (value_payload hundredths event) ≡ ("t1", "C1")
unfolding zero_payload
parse_value_payload-value_payload_example =
    parse_value_payload-value_payload hundredths event payload refl (refl, (refl, tt))

abbrev pressed : InteractionCallback
pressed = callback "t1|C1" "" none

-- What is typed into the one input of a modal.
typed_in :
    (block action text b a t : String)
    → value_at b a (some ((block, (action, text) ∷ []) ∷ [])) ≡ some t
    → (block ≡ b) × (action ≡ a)
unfolding value_at lookup
typed_in block action text b a t e = ground arith

pair_eq : {s t u v : String} → (s ≡ t) × (u ≡ v) → ◌≡◌ {A = String × String} (s, u) (t, v)
pair_eq (p, q) = λ i. (p i, q i)

abbrev submitted_to : View → String → String → InteractionCallback
submitted_to view block action =
    callback "" view.private_metadata (some ((block, (action, "YES") ∷ []) ∷ []))

feedback_IsSubmission :
    (mode : String)
    → IsSubmission
        (feedback_view codec pressed mode)
        (submitted_to (feedback_view codec pressed mode) "feedback_input" "feedback_text")
unfolding feedback_view
feedback_IsSubmission mode = record {
  same_metadata = refl;
  own_inputs = λ b a t e. inl (pair_eq (typed_in "feedback_input" "feedback_text" "YES" b a t e));
}

abbrev feedback_submitted : String → InteractionCallback
feedback_submitted mode =
    submitted_to (feedback_view codec pressed mode) "feedback_input" "feedback_text"

abbrev resumed : HitlDecision → Outcome
resumed decision = record {
  calls = mark_resuming handler (task_of codec handler answers pressed);
  spawned =
      (send_resume codec handler answers (task_of codec handler answers pressed) decision
        (if "YES" == "" then "(no feedback provided)" else "YES")).0;
}

feedback_view-submit_example :
    (handle_view_submission codec handler answers (feedback_submitted "request_changes")
      ≡ resumed reject)
    × (handle_view_submission codec handler answers (feedback_submitted "feedback")
        ≡ resumed feedback)
unfolding value_at lookup str_dec mark_resuming task_of send_resume parse_value_payload first_value
feedback_view-submit_example =
    feedback_view-submit codec codec-IsLawful handler answers pressed
      (feedback_submitted "request_changes") (feedback_submitted "feedback") "YES"
      (feedback_IsSubmission "request_changes") refl (feedback_IsSubmission "feedback") refl

pressed_task : task_of codec handler answers pressed ≡ "t1"
unfolding task_of first_value parse_value_payload
pressed_task = refl

abbrev failed_outcome : String → HitlDecision → String → Outcome
failed_outcome state decision failure =
    let task = task_of codec handler answers pressed in
    let channel = channel_of codec handler answers pressed in
    record {
      calls =
          update_message_to_state channel pressed.message_ts state
          ++ set_state (resuming task) ∷ [];
      spawned =
          execute
            (resume_request codec (record { task_id = task; decision = decision; comment = "" }))
          ∷ post_message channel (failure <> "worker execute resume: " <> "gone")
          ∷ [];
    }
