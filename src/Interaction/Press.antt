-- ===== src/Interaction/Press.antt =====
-- gateway/interaction_handler.go: what a press of a button on the card of a paused task does.
use agentfactory_gateway.Common.{
  String, Bool, true, false, none, some, List, ◌⊎◌, ◌&&◌, ◌/=◌, [], ◌∷◌, ◌++◌, if◌then◌else◌, ◌==◌,
  ◌≡◌, ◌≢◌, refl, arith,
}
use agentfactory_gateway.Common.Float.{Float}
use agentfactory_gateway.Common.Text.{◌<>◌}
use agentfactory_gateway.Protocol.{Value}
use agentfactory_gateway.Interaction.Effects.{
  HitlDecision, approve, approve_push, Json, Answers, InteractionCallback, HitlHandler, execute,
  set_state, post_message, open_view, Effect, Outcome, View,
}
use agentfactory_gateway.Interaction.Modals.{update_message_to_state, metadata}
use agentfactory_gateway.Interaction.Handler.{
  send_resume, mark_resuming, resuming, resume_request, resume_or_reply, task_of, channel_of,
  handle_id, handle_action, handle_approve, handle_git_push,
}
use agentfactory_gateway.Render.Kit.{Button}
use agentfactory_gateway.Interaction.Buttons.{press}

-- What a button is for: it resumes the task, with a decision, a mark on the message and the text of a
-- failure, or it opens a modal with a mode.
pub data Purpose : Type 0 where
  resumes : HitlDecision → String → String → Purpose
  opens : String → String → Purpose

abbrev pub purposes : List (String × Purpose)
purposes =
    ("hitl_approve", resumes approve "approved" "⚠\u{fe0f} Failed to send approve command: ")
    ∷ (
      "hitl_reject",
      opens "request_changes" "⚠\u{fe0f} Failed to open feedback dialog. Please try again.",
    )
    ∷ (
      "hitl_feedback",
      opens "feedback" "⚠\u{fe0f} Failed to open feedback dialog. Please try again.",
    )
    ∷ ("git_push", resumes approve_push "push_initiated" "⚠\u{fe0f} Failed to send push command: ")
    ∷ (
      "git_rebase",
      opens "rebase_confirm" "⚠\u{fe0f} Failed to open confirmation dialog. Please try again.",
    )
    ∷ ("git_manual", opens "manual_commands" "⚠\u{fe0f} Failed to open dialog. Please try again.")
    ∷ []

abbrev pub In : String × Purpose → List (String × Purpose) → Type 0
In x [] = ⊥
In x (y ∷ ys) = (y ≡ x) ⊎ In x ys

module _ (J : Json) (h : HitlHandler) (answers : Answers) where
  -- The request that resumes the task, which a worker that is there gets for a task with an id, and the
  -- reply in the channel if that fails.
  abbrev pub resumption : String → String → HitlDecision → String → List Effect
  resumption task channel decision failure =
      if task == ""
      then post_message channel (failure <> "cannot resume: empty task_id") ∷ []
      else if h.worker
      then execute (record {
        task = J.marshal_resume (record { task_id = task; decision = decision; comment = "" });
        task_type = "";
        context = ("action", Value.text "resume") ∷ [];
        dispatch = false;
      })
        ∷ elim answers.execute_error [
          | none ↦ []
          | some err ↦ post_message channel (failure <> "worker execute resume: " <> err) ∷ []
        ]
      else []

  -- The record "resuming", which a state manager that is there gets for a task with an id.
  abbrev pub resuming_record : String → List Effect
  resuming_record task =
      if h.state_mgr && task /= ""
      then set_state (record {
        task_id = task;
        channel_id = "";
        slack_ts = "";
        user_id = "";
        prompt = "";
        status = "resuming";
        updated_at = 0;
      })
        ∷ []
      else []

  -- What a press must do for the task and the channel, of a callback `c`.
  abbrev pub Does : String → String → InteractionCallback → Bool × Outcome → Purpose → Type 0
  Does task channel c r (resumes decision mark failure) = r ≡ (
    true,
    record {
      calls = update_message_to_state channel c.message_ts mark ++ resuming_record task;
      spawned = resumption task channel decision failure;
    },
  )
  Does task channel c r (opens mode failure) =
      (v : View) × (v.private_metadata ≡ J.marshal_map (metadata task mode c.user_id))
      × (r ≡ (
        true,
        record {
          calls =
              open_view c.trigger_id v
              ∷ (if answers.open_view_fails then post_message c.channel_id failure ∷ [] else []);
          spawned = [];
        },
      ))

  -- The channel of the button, or that of the press where the button has none.
  abbrev pub target : String → InteractionCallback → String
  target channel c = if channel == "" then c.channel_id else channel

  -- A press of the button does what its purpose asks for the task and the channel.
  abbrev pub Works : String → String → InteractionCallback → Button → Type 0
  Works task channel c b =
      (x : Purpose) × In (b.action_id, x) purposes
      × Does task (target channel c) c (handle_action J h answers (press b c)) x

  -- The same of an action id and a callback whose button's value is read so.
  abbrev Handled : String → Type 0
  Handled id =
      (task channel : String) (c : InteractionCallback)
      → task_of J h answers c ≡ task
      → channel_of J h answers c ≡ channel
      → (x : Purpose) × In (id, x) purposes × Does task channel c (handle_id J h answers id c) x

  marks :
      (task : String)
      → h.state_mgr ≡ true
      → task ≢ ""
      → mark_resuming h task ≡ set_state (resuming task) ∷ []
  unfolding mark_resuming
  marks task st ne = ground arith

  sends :
      (task : String) (decision : HitlDecision) (err : String)
      → h.worker ≡ true
      → answers.execute_error ≡ some err
      → task ≢ ""
      → send_resume J h answers task decision "" ≡ (
        execute (resume_request J (record { task_id = task; decision = decision; comment = "" }))
            ∷ [],
        some ("worker execute resume: " <> err),
      )
  unfolding send_resume
  sends task decision err w e ne = ground arith

  replies :
      (task channel : String) (decision : HitlDecision) (failure err : String)
      → h.worker ≡ true
      → answers.execute_error ≡ some err
      → task ≢ ""
      → resume_or_reply J h answers task channel decision failure
        ≡ execute (resume_request J (record { task_id = task; decision = decision; comment = "" }))
          ∷ post_message channel (failure <> "worker execute resume: " <> err)
          ∷ []
  unfolding resume_or_reply
  replies task channel decision failure err w e ne =
      rw (sends task decision err w e ne, resume_or_reply) refl

  -- When the worker fails to take the resume request of "Approve" or "Push & PR", the channel is told
  -- the error, and the task is recorded as resuming all the same.
  pub resume-failed :
      (c : InteractionCallback) (err : String)
      → h.worker ≡ true
      → h.state_mgr ≡ true
      → answers.execute_error ≡ some err
      → task_of J h answers c ≢ ""
      → (handle_approve J h answers c ≡ record {
        calls =
            update_message_to_state (channel_of J h answers c) c.message_ts "approved"
            ++ set_state (resuming (task_of J h answers c)) ∷ [];
        spawned =
            execute (
              resume_request J
                (record { task_id = task_of J h answers c; decision = approve; comment = "" }))
            ∷ post_message
                (channel_of J h answers c)
                ("⚠\u{fe0f} Failed to send approve command: " <> "worker execute resume: " <> err)
            ∷ [];
      })
        × (handle_git_push J h answers c ≡ record {
          calls =
              update_message_to_state (channel_of J h answers c) c.message_ts "push_initiated"
              ++ set_state (resuming (task_of J h answers c)) ∷ [];
          spawned =
              execute (
                resume_request J (record {
                  task_id = task_of J h answers c;
                  decision = approve_push;
                  comment = "";
                }))
              ∷ post_message
                  (channel_of J h answers c)
                  ("⚠\u{fe0f} Failed to send push command: " <> "worker execute resume: " <> err)
              ∷ [];
        })
  unfolding handle_approve handle_git_push
  resume-failed c err w st e ne = (
    rw (marks (task_of J h answers c) st ne) (
        rw
          (replies (task_of J h answers c) (channel_of J h answers c) approve
            "⚠\u{fe0f} Failed to send approve command: " err w e ne)
          refl),
    rw (marks (task_of J h answers c) st ne) (
        rw
          (replies (task_of J h answers c) (channel_of J h answers c) approve_push
            "⚠\u{fe0f} Failed to send push command: " err w e ne)
          refl),
  )
