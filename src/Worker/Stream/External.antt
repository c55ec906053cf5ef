-- ===== src/Worker/Stream/External.antt =====
-- worker/stream_worker.go: executeCline, and the choice of Execute. The goroutine that reads the output
-- runs beside Wait, so that its lines come at any time: before Wait returns, between the flush and the
-- done event, before the deferred Stop of the throttler, or after it. A panic in it ends the program.
pub mod Labels
use Prim.Native.Char.{Char}
use agentfactory_gateway.Common.{
  ℕ, String, ◌≡◌, refl, Bool, true, false, ◌&&◌, ◌⊎◌, inl, inr, Option, none, some, List, [], ◌∷◌,
  ◌++◌, if◌then◌else◌, ◌==◌, ◌/=◌, All, All-append,
}
use agentfactory_gateway.Common.Dict.{Dict, lookup}
use agentfactory_gateway.Common.Float.{Float}
use agentfactory_gateway.Common.Text.{◌<>◌}
use agentfactory_gateway.Protocol.{Value, as_text, EventPayload, zero_payload}
use agentfactory_gateway.Throttler.{
  SlackEvent, start, done, error, MessageThrottler, new_message_throttler, push, stop, flush_now,
  fire,
}
use agentfactory_gateway.Interaction.Effects.{TaskRequest}
use agentfactory_gateway.Worker.Cline.{Parsed, panics, skips, parses, parse_line}
use agentfactory_gateway.Worker.Stream.{
  StreamWorker, Call, event, failure, RunError, exited, Process, delivered, execute_python,
}
use agentfactory_gateway.Worker.Stream.Dispatch.{context_task_id}

-- The process prints a line, at an elapsed time, or the timer fires and its flush runs to its end.
pub data Print : Type 0 where
  prints : String → String → Print
  fires : Print

pub record ClineRun : Type 0 where
  pub setup : Option RunError
  pub before : List Print
  pub wait_error : Option String
  pub between : List Print
  pub ended : List Print
  pub late : List Print

-- the argument of the command
unfoldable pub cline_prompt : TaskRequest → String
unfolding lookup
cline_prompt req = elim (lookup "prompt" req.context) [
  | none ↦ req.task
  | some v ↦ elim (as_text v) [ none ↦ req.task | some p ↦ if p == "" then req.task else p ]
]

module _ (F : Float) where
  -- The state of a run: what has been delivered is in `calls`.
  pub record Session : Type 0 where
    pub throttler : MessageThrottler (EventPayload F)
    pub calls : List (Call (SlackEvent (EventPayload F)))
    pub crashed : Bool

  -- Inject task_id into the event.
  unfoldable pub inject : String → SlackEvent (EventPayload F) → SlackEvent (EventPayload F)
  inject id e = elim e.payload [
    | none ↦ e
    | some p ↦ if id == "" then e else record e { payload = some (record p { task_id = id }) }
  ]

  -- What an operation of the throttler delivers comes after the calls before it.
  unfoldable pub operate :
      (MessageThrottler (EventPayload F) → MessageThrottler (EventPayload F)) → Session → Session
  unfolding delivered
  operate f s =
      let t = s.throttler in
      let t' = f (record t { flushed = [] }) in
      if s.crashed then s else record s { throttler = t'; calls = s.calls ++ delivered t'.flushed }

  unfoldable pub say : SlackEvent (EventPayload F) → Session → Session
  say e s = if s.crashed then s else record s { calls = s.calls ++ event e ∷ [] }

  unfoldable pub crash : Session → Session
  crash s = record s { crashed = true }

  -- adapter.Stream with its callback
  unfoldable pub feed : (Char → Char) → String → List Print → Session → Session
  unfolding operate crash
  feed lower id [] s = s
  feed lower id (fires ∷ more) s = feed lower id more (operate fire s)
  feed lower id (prints elapsed line ∷ more) s = elim (parse_line F lower elapsed line) [
    | panics ↦ crash s
    | skips ↦ feed lower id more s
    | parses e ↦ feed lower id more (operate (push (inject id e)) s)
  ]

  unfoldable pub cline_start : String → String → SlackEvent (EventPayload F)
  cline_start id task = record {
    type = start;
    payload =
        some (record (zero_payload F) { task_id = id; user_input = task; task_type = "external" });
  }

  unfoldable pub cline_done : String → SlackEvent (EventPayload F)
  cline_done id = record {
    type = done;
    payload = some (record (zero_payload F) { task_id = id; output = "Cline task completed" });
  }

  unfoldable pub cline_error : String → SlackEvent (EventPayload F)
  cline_error msg = record {
    type = error;
    payload = some (record (zero_payload F) { message = "cline exited with error: " <> msg });
  }

  -- after Wait
  unfoldable pub cline_exit : (Char → Char) → String → ClineRun → Session → Session
  unfolding operate say feed cline_done cline_error
  cline_exit lower id run s = elim run.wait_error [
    | some msg ↦
        feed lower id run.late (operate stop (feed lower id run.ended (say (cline_error msg) s)))
    | none ↦ feed lower id run.late (
        operate stop (
          feed lower id run.ended
            (say (cline_done id) (feed lower id run.between (operate flush_now s)))))
  ]

  unfoldable pub cline_session : (Char → Char) → ClineRun → TaskRequest → Session
  unfolding feed cline_start cline_exit context_task_id new_message_throttler
  cline_session lower run req =
      let id = context_task_id req.context in
      cline_exit lower id run (
        feed lower id run.before (record {
          throttler = new_message_throttler;
          calls = event (cline_start id req.task) ∷ [];
          crashed = false;
        }))

  -- The calls and, unless the program has crashed, the error that is returned.
  unfoldable pub execute_cline :
      (Char → Char)
      → ClineRun
      → TaskRequest
      → List (Call (SlackEvent (EventPayload F))) × Option (Option RunError)
  unfolding cline_session
  execute_cline lower run req = elim run.setup [
    | some e ↦ ([], some (some e))
    | none ↦
        let s = cline_session lower run req in
        (
          s.calls,
          if s.crashed
              then none
              else some (elim run.wait_error [ none ↦ none | some msg ↦ some (exited msg) ]),
        )
  ]

  -- Execute; a process of the Python worker and one of Cline stand for what either would do.
  unfoldable pub execute :
      (String → Option (SlackEvent (EventPayload F)))
      → (Char → Char)
      → StreamWorker
      → Process
      → ClineRun
      → TaskRequest
      → List (Call (SlackEvent (EventPayload F))) × Option (Option RunError)
  unfolding execute_cline execute_python
  execute decode lower w p run req =
      let (calls, err) = execute_python decode w p in
      if req.task_type == "external" && w.cline_bin /= ""
      then execute_cline lower run req
      else (calls, some err)
