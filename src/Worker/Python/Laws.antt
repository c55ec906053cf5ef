-- ===== src/Worker/Python/Laws.antt =====
-- worker/python_worker.go: what Execute leaves, and what CheckStatus answers.
use agentfactory_gateway.Common.{
  String, true, ◌≡◌, ◌≢◌, ◌↔◌, refl, ◌⊎◌, inl, inr, none, List, arith,
}
use agentfactory_gateway.Recovery.{reported}
use agentfactory_gateway.Worker.Python.{
  TaskResponse, TaskStatusResponse, PythonWorker, stop, Run, process_stopped, on_done, on_stopped,
  await, execute, CommandResult, status_command, status_answer, check_status, response,
}

-- A Stop before Execute is forgotten: the result is that without it, and so is what Stop reaches
-- afterwards. Once Execute has begun and returns, no process is left to be signalled.
pub execute-stop :
    (unmarshal : String → String ⊎ TaskResponse) (run : Run) (w : PythonWorker)
    → run.marshal_error ≡ none
    → ((execute unmarshal run (stop w)).1 ≡ (execute unmarshal run w).1)
      × ((execute unmarshal run (stop w)).0.stopped ≡ (execute unmarshal run w).0.stopped)
      × ((execute unmarshal run w).0.cmd ≡ none)
unfolding execute await on_done on_stopped stop
execute-stop unmarshal run w well = ground arith

-- Execute answers that the process was stopped only if Stop was called while it ran.
pub execute-stopped :
    (unmarshal : String → String ⊎ TaskResponse) (run : Run) (w : PythonWorker) (stderr : String)
    → (execute unmarshal run w).1 ≡ inl (process_stopped stderr)
    → run.stop_called ≡ true
unfolding execute await on_done on_stopped stop response
execute-stopped unmarshal run w stderr h = ground arith

status_answer-reported :
    (id s : String) (r : CommandResult) (parsed : String ⊎ TaskStatusResponse)
    → status_answer id r parsed ≡ reported s
    → (r.error ≡ none) × ((t : TaskStatusResponse) × (parsed ≡ inr t) × (t.status ≡ s)) × (s ≢ "")
unfolding status_answer
status_answer-reported id s r (inl e) h = absurd (ground arith)
status_answer-reported id s r (inr t) h = (ground arith, (t, refl, ground arith), ground arith)

reported-status_answer :
    (id s : String) (r : CommandResult) (parsed : String ⊎ TaskStatusResponse)
    (t : TaskStatusResponse)
    → r.error ≡ none
    → parsed ≡ inr t
    → t.status ≡ s
    → s ≢ ""
    → status_answer id r parsed ≡ reported s
unfolding status_answer
reported-status_answer id s r parsed t well found same full = ground arith

-- CheckStatus reports a status exactly when the command ends well with a response of that status, and
-- the status is not empty.
pub check_status_iff :
    (run : List String → CommandResult) (unmarshal : String → String ⊎ TaskStatusResponse)
    (w : PythonWorker) (id s : String)
    → (check_status run unmarshal w id ≡ reported s) ↔ (
        ((run (status_command w id)).error ≡ none)
        × ((r : TaskStatusResponse) × (unmarshal (run (status_command w id)).stdout ≡ inr r)
            × (r.status ≡ s))
        × (s ≢ ""))
unfolding check_status
check_status_iff run unmarshal w id s =
    let r = run (status_command w id) in
    (
      status_answer-reported id s r (unmarshal r.stdout),
      λ (well, (t, found, same), full).
          reported-status_answer id s r (unmarshal r.stdout) t well found same full,
    )
