-- ===== src/Interaction/Handler.antt =====
-- gateway/interaction_handler.go: the actions of the buttons and the submission of a modal.
use agentfactory_gateway.Common.{
  String, Bool, true, false, Option, none, some, List, [], ◌∷◌, ◌++◌, if◌then◌else◌, ◌==◌, ◌/=◌,
  ◌&&◌,
}
use agentfactory_gateway.Common.Dict.{Dict, lookup}
use agentfactory_gateway.Common.Text.{◌<>◌}
use agentfactory_gateway.Protocol.{Value}
use agentfactory_gateway.State.Json.{TaskRecord}
use agentfactory_gateway.Common.Strings.{trim_space}
use agentfactory_gateway.Interaction.Strings.{parse_value_payload, to_upper}
use agentfactory_gateway.Interaction.Effects.{
  HitlDecision, approve, reject, feedback, approve_push, approve_rebase, ResumePayload, TaskRequest,
  Json, Answers, Effect, execute, set_state, post_message, Outcome, InteractionCallback,
  HitlHandler,
}
use agentfactory_gateway.Interaction.Modals.{
  first_value, open_feedback_modal, open_rebase_confirm_modal, open_manual_commands_modal,
  update_message_to_state,
}

-- statemgr.TaskRecord{TaskID: taskID, Status: "resuming"}
abbrev pub resuming : String → TaskRecord
resuming id = record {
  task_id = id;
  channel_id = "";
  slack_ts = "";
  user_id = "";
  prompt = "";
  status = "resuming";
  updated_at = 0;
}

-- the request with which the worker resumes a task
abbrev pub resume_request : Json → ResumePayload → TaskRequest
resume_request J payload = record {
  task = J.marshal_resume payload;
  task_type = "";
  context = ("action", Value.text "resume") ∷ [];
  dispatch = false;
}

-- Update state manager.
unfoldable pub mark_resuming : HitlHandler → String → List Effect
mark_resuming h task_id =
    if h.state_mgr && task_id /= "" then set_state (resuming task_id) ∷ [] else []

-- value["block"]["action"], or none where a key is missing
unfoldable pub value_at : String → String → Option (Dict (Dict String)) → Option String
value_at block action none = none
value_at block action (some values) = elim (lookup block values) [
  | none ↦ none
  | some inputs ↦ lookup action inputs
]

unfoldable pub feedback_of : InteractionCallback → String
feedback_of callback = elim (value_at "feedback_input" "feedback_text" callback.state) [
  | none ↦ "(no feedback provided)"
  | some text ↦ if text == "" then "(no feedback provided)" else text
]

-- The switch on the mode; none is the cancelled rebase.
unfoldable pub decide : String → String → Option HitlDecision
decide mode text =
    if mode == "request_changes"
    then some reject
    else if mode == "feedback"
    then some feedback
    else if mode == "rebase_confirm"
    then (if to_upper (trim_space text) == "YES" then some approve_rebase else none)
    else some feedback

-- data[key], "" for a key that is missing
unfoldable pub field : String → Dict String → String
field key d = elim (lookup key d) [ none ↦ "" | some v ↦ v ]

abbrev pub nothing : Outcome
nothing = record { calls = []; spawned = [] }

module _ (J : Json) (h : HitlHandler) (answers : Answers) where
  -- The calls of sendResume and its error.
  unfoldable pub send_resume : String → HitlDecision → String → List Effect × Option String
  send_resume task_id decision comment =
      let payload : ResumePayload = record {
        task_id = task_id;
        decision = decision;
        comment = comment;
      } in
      if task_id == ""
      then ([], some "cannot resume: empty task_id")
      else if h.worker
      then (
        execute (resume_request J payload) ∷ [],
        elim answers.execute_error [
          | none ↦ none
          | some err ↦ some ("worker execute resume: " <> err)
        ],
      )
      else ([], none)

  -- the goroutine of handleApprove and handleGitPush
  unfoldable pub resume_or_reply : String → String → HitlDecision → String → List Effect
  resume_or_reply task_id channel decision failure =
      let (calls, err) = send_resume task_id decision "" in
      calls ++ elim err [ none ↦ [] | some e ↦ post_message channel (failure <> e) ∷ [] ]

  -- channelID of handleApprove and handleGitPush: the channel of the button, else of the callback; the
  -- other handlers reply in callback.Channel.ID
  unfoldable pub channel_of : InteractionCallback → String
  channel_of callback =
      let (_, channel) = parse_value_payload (first_value callback) in
      if channel == "" then callback.channel_id else channel

  unfoldable pub task_of : InteractionCallback → String
  task_of callback = (parse_value_payload (first_value callback)).0

  unfoldable pub handle_approve : InteractionCallback → Outcome
  unfolding task_of channel_of
  handle_approve callback = record {
    calls =
        update_message_to_state (channel_of callback) callback.message_ts "approved"
        ++ mark_resuming h (task_of callback);
    spawned =
        resume_or_reply (task_of callback) (channel_of callback) approve
          "⚠\u{fe0f} Failed to send approve command: ";
  }

  unfoldable pub handle_git_push : InteractionCallback → Outcome
  unfolding task_of channel_of
  handle_git_push callback = record {
    calls =
        update_message_to_state (channel_of callback) callback.message_ts "push_initiated"
        ++ mark_resuming h (task_of callback);
    spawned =
        resume_or_reply (task_of callback) (channel_of callback) approve_push
          "⚠\u{fe0f} Failed to send push command: ";
  }

  unfoldable pub handle_reject : InteractionCallback → Outcome
  handle_reject callback = record {
    calls = open_feedback_modal J answers callback "request_changes";
    spawned = [];
  }

  unfoldable pub handle_feedback : InteractionCallback → Outcome
  handle_feedback callback = record {
    calls = open_feedback_modal J answers callback "feedback";
    spawned = [];
  }

  unfoldable pub handle_git_rebase : InteractionCallback → Outcome
  handle_git_rebase callback = record {
    calls = open_rebase_confirm_modal J answers callback;
    spawned = [];
  }

  unfoldable pub handle_git_manual : InteractionCallback → Outcome
  handle_git_manual callback = record {
    calls = open_manual_commands_modal J answers callback;
    spawned = [];
  }

  -- the switch on action.ActionID; the Boolean says whether the action was handled
  unfoldable pub handle_id : String → InteractionCallback → Bool × Outcome
  handle_id id callback =
      if id == "hitl_approve"
      then (true, handle_approve callback)
      else if id == "hitl_reject"
      then (true, handle_reject callback)
      else if id == "hitl_feedback"
      then (true, handle_feedback callback)
      else if id == "git_push"
      then (true, handle_git_push callback)
      else if id == "git_rebase"
      then (true, handle_git_rebase callback)
      else if id == "git_manual"
      then (true, handle_git_manual callback)
      else (false, nothing)

  unfoldable pub handle_action : InteractionCallback → Bool × Outcome
  unfolding handle_id
  handle_action callback = elim callback.block_actions [
    | [] ↦ (false, nothing)
    | action ∷ _ ↦ handle_id action.action_id callback
  ]

  -- the part of HandleViewSubmission that follows on the decision
  unfoldable pub resume_with : String → String → Option HitlDecision → Outcome
  resume_with task_id text none = nothing
  resume_with task_id text (some decision) = record {
    calls = mark_resuming h task_id;
    spawned = (send_resume task_id decision text).0;
  }

  unfoldable pub handle_view_submission : InteractionCallback → Outcome
  handle_view_submission callback =
      if callback.private_metadata == ""
      then nothing
      else elim (J.unmarshal_map callback.private_metadata) [
        | none ↦ nothing
        | some d ↦
            resume_with (field "task_id" d) (feedback_of callback)
              (decide (field "mode" d) (feedback_of callback))
      ]
