-- ===== src/Interaction/Submission.antt =====
-- gateway/interaction_handler.go: what the submission of a modal does with the text that was typed.
use agentfactory_gateway.Common.{
  String, false, ◌/=◌, ◌&&◌, arith, some, List, [], ◌∷◌, if◌then◌else◌, ◌==◌, ◌≡◌, ◌⊎◌, refl, ap,
  ◌∙◌, str_dec,
}
use agentfactory_gateway.Common.Dict.{Dict, lookup}
use agentfactory_gateway.Interaction.Effects.{
  HitlDecision, Effect, execute, reject, feedback, View, Json, IsLawful, Answers,
  InteractionCallback, HitlHandler,
}
use agentfactory_gateway.Interaction.Modals.{metadata, feedback_view}
use agentfactory_gateway.Interaction.Handler.{
  value_at, feedback_of, decide, field, send_resume, mark_resuming, resume_with, task_of,
  handle_view_submission,
}
use agentfactory_gateway.Protocol.{Value}
use agentfactory_gateway.Interaction.Press.{resuming_record}
use agentfactory_gateway.Render.Kit.{Block, header, section, divider, context, actions, input}

-- The ids of the inputs of a modal.
abbrev pub input_ids : List Block → List (String × String)
input_ids [] = []
input_ids (header _ ∷ blocks) = input_ids blocks
input_ids (section _ ∷ blocks) = input_ids blocks
input_ids (divider ∷ blocks) = input_ids blocks
input_ids (context _ _ ∷ blocks) = input_ids blocks
input_ids (actions _ _ ∷ blocks) = input_ids blocks
input_ids (input block_id _ _ element ∷ blocks) = (block_id, element.action_id) ∷ input_ids blocks

abbrev pub In : String × String → List (String × String) → Type 0
In x [] = ⊥
In x (y ∷ ys) = (y ≡ x) ⊎ In x ys

-- A callback that Slack sends for the submission of the view: it carries the private metadata, and
-- the values of no other inputs than the view's.
pub record IsSubmission (v : View) (c : InteractionCallback) : Type 0 where
  pub same_metadata : c.private_metadata ≡ v.private_metadata
  pub own_inputs :
      (block action text : String)
      → value_at block action c.state ≡ some text
      → In (block, action) (input_ids v.blocks)

field_of :
    (k v : String) (e d : Dict String)
    → lookup k e ≡ lookup k d
    → lookup k d ≡ some v
    → field k e ≡ v
unfolding field
field_of k v e d same there = rw (same ∙ there, field) refl

module _ (J : Json) (L : IsLawful J) (h : HitlHandler) (answers : Answers) where
  -- The metadata of a modal comes back.
  submission :
      (task_id mode user : String) (c : InteractionCallback)
      → c.private_metadata ≡ J.marshal_map (metadata task_id mode user)
      → handle_view_submission J h answers c
        ≡ resume_with J h answers task_id (feedback_of c) (decide mode (feedback_of c))
  unfolding handle_view_submission lookup str_dec feedback_of
  submission task_id mode user c e =
      let d = metadata task_id mode user in
      let (e', back, same) = L.unmarshal-marshal d in
      rw e (
        rw (L.nonempty d) (
          rw back (
            rw (field_of "task_id" task_id e' d (same "task_id") refl)
              (rw (field_of "mode" mode e' d (same "mode") refl) refl))))

  -- The text of a submission.
  feedback_of_text :
      (c : InteractionCallback) (text : String)
      → value_at "feedback_input" "feedback_text" c.state ≡ some text
      → feedback_of c ≡ (if text == "" then "(no feedback provided)" else text)
  unfolding feedback_of
  feedback_of_text c text e = rw (e, feedback_of) refl

  -- The request that resumes the task, which a worker that is there gets for a task with an id.
  abbrev pub resume_call : String → HitlDecision → String → List Effect
  resume_call task decision comment =
      if task /= "" && h.worker
      then execute (record {
        task = J.marshal_resume (record { task_id = task; decision = decision; comment = comment });
        task_type = "";
        context = ("action", Value.text "resume") ∷ [];
        dispatch = false;
      })
        ∷ []
      else []

  resumes_task :
      (task : String) (decision : HitlDecision) (comment : String)
      → resume_with J h answers task comment (some decision) ≡ record {
        calls = resuming_record J h answers task;
        spawned = resume_call task decision comment;
      }
  unfolding resume_with mark_resuming send_resume
  resumes_task task decision comment =
      ap (λ es. record { calls = resuming_record J h answers task; spawned = es }) (ground arith)

  -- A modal opened by the buttons "Request Changes" and "Give Feedback", when it is submitted with a
  -- text, for a button's task with an id, records the task as resuming, if there is a state manager, and
  -- resumes it, if there is a worker, with REJECT and with FEEDBACK, with that text as the comment, or
  -- with "(no feedback provided)" for the empty text. For an empty task id it does nothing.
  pub feedback_view-submit :
      (pressed c d : InteractionCallback) (text : String)
      → IsSubmission (feedback_view J pressed "request_changes") c
      → value_at "feedback_input" "feedback_text" c.state ≡ some text
      → IsSubmission (feedback_view J pressed "feedback") d
      → value_at "feedback_input" "feedback_text" d.state ≡ some text
      → (handle_view_submission J h answers c ≡ record {
        calls = resuming_record J h answers (task_of J h answers pressed);
        spawned =
            resume_call
              (task_of J h answers pressed)
              reject
              (if text == "" then "(no feedback provided)" else text);
      })
        × (handle_view_submission J h answers d ≡ record {
          calls = resuming_record J h answers (task_of J h answers pressed);
          spawned =
              resume_call
                (task_of J h answers pressed)
                feedback
                (if text == "" then "(no feedback provided)" else text);
        })
  unfolding feedback_view task_of decide str_dec
  feedback_view-submit pressed c d text s e t f = (
    submission (task_of J h answers pressed) "request_changes" pressed.user_id c s.same_metadata
        ∙ rw (feedback_of_text c text e) (resumes_task (task_of J h answers pressed) reject _),
    submission (task_of J h answers pressed) "feedback" pressed.user_id d t.same_metadata
        ∙ rw (feedback_of_text d text f) (resumes_task (task_of J h answers pressed) feedback _),
  )
