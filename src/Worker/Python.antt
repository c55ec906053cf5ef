-- ===== src/Worker/Python.antt =====
-- worker/python_worker.go: PythonWorker. A process is a number, and what it does is an argument; so are
-- the commands that CheckStatus runs, and json.Unmarshal, which answers with an error or a value.
pub mod Laws
use agentfactory_gateway.Common.{
  ℕ, suc, ◌+◌, String, Bool, true, false, ◌⊎◌, inl, inr, Option, none, some, List, [], ◌∷◌,
  if◌then◌else◌, ◌==◌, ◌/=◌,
}
use agentfactory_gateway.Common.Text.{concat}
use agentfactory_gateway.Recovery.{Checked, reported, failed}

-- protocol.TaskResponse
pub record TaskResponse : Type 0 where
  pub output : String
  pub error : String

pub record TaskStatusResponse : Type 0 where
  pub status : String
  pub task_id : String
  pub message : String

-- `cmd` is the process that Stop reaches; `stopped` says whether the channel of that name is closed.
-- The signals are kept with the last one first.
pub data Signal : Type 0 where
  terminate kill : ℕ → Signal

pub record PythonWorker : Type 0 where
  pub python_bin : String
  pub script : String
  pub af_cli_bin : String
  pub cli_script : String
  pub cmd : Option ℕ
  pub stopped : Bool
  pub signals : List Signal

unfoldable pub new_python_worker : String → PythonWorker
new_python_worker python_bin = record {
  python_bin = python_bin;
  script = "worker.py";
  af_cli_bin = "";
  cli_script = "cli.py";
  cmd = none;
  stopped = false;
  signals = [];
}

unfoldable pub with_af_cli : String → PythonWorker → PythonWorker
with_af_cli bin w = record w { af_cli_bin = bin }

unfoldable pub with_cli_script : String → PythonWorker → PythonWorker
with_cli_script script w = record w { cli_script = script }

unfoldable pub stop : PythonWorker → PythonWorker
stop w =
    let signals : List Signal = elim w.cmd [
      | none ↦ w.signals
      | some pid ↦ terminate pid ∷ w.signals
    ] in
    record w { signals = signals; stopped = true }

-- One call of Execute: what fails, whether Stop is called while the process runs, which case of the
-- select is taken then, and what the process leaves.
pub record Run : Type 0 where
  pub pid : ℕ
  pub marshal_error : Option String
  pub start_error : Option String
  pub stop_called : Bool
  pub pick_done : Bool
  pub wait_error : Option String
  pub stdout : String
  pub stderr : String

pub data ExecuteError : Type 0 where
  marshal_request : String → ExecuteError
  failed_to_start : String → ExecuteError
  process_failed : String → String → ExecuteError
  process_stopped : String → ExecuteError
  unmarshal_response : String → String → ExecuteError

module _ (unmarshal : String → String ⊎ TaskResponse) where
  -- what the output of a process gives
  unfoldable pub response : Run → ExecuteError ⊎ TaskResponse
  response run = elim (unmarshal run.stdout) [
    | inl e ↦ inl (unmarshal_response e run.stdout)
    | inr r ↦ inr r
  ]

  -- case err = <-done
  unfoldable pub on_done : Run → PythonWorker → PythonWorker × (ExecuteError ⊎ TaskResponse)
  unfolding response
  on_done run w = (
    record w { cmd = none },
    elim run.wait_error [ some e ↦ inl (process_failed e run.stderr) | none ↦ response run ],
  )

  -- case <-w.stopped
  unfoldable pub on_stopped : Run → PythonWorker → PythonWorker × (ExecuteError ⊎ TaskResponse)
  on_stopped run w = (
    record w { cmd = none; signals = kill run.pid ∷ w.signals },
    inl (process_stopped run.stderr),
  )

  -- the select; the process ends at some time, and the channel is closed only by Stop
  unfoldable pub await : Run → PythonWorker → PythonWorker × (ExecuteError ⊎ TaskResponse)
  unfolding on_done on_stopped stop
  await run w =
      let w' = if run.stop_called then stop w else w in
      if w'.stopped
      then (if run.pick_done then on_done run w' else on_stopped run w')
      else on_done run w'

  unfoldable pub execute : Run → PythonWorker → PythonWorker × (ExecuteError ⊎ TaskResponse)
  unfolding await
  execute run w = elim run.marshal_error [
    | some e ↦ (w, inl (marshal_request e))
    | none ↦ elim run.start_error [
      | some e ↦ (record w { cmd = none; stopped = false }, inl (failed_to_start e))
      | none ↦ await run (record w { cmd = some run.pid; stopped = false })
    ]
  ]

-- What a command leaves that is run to its end.
pub record CommandResult : Type 0 where
  pub error : Option String
  pub stdout : String
  pub stderr : String

unfoldable pub status_command : PythonWorker → String → List String
status_command w id =
    if w.af_cli_bin /= ""
    then w.af_cli_bin ∷ "check-task" ∷ "--task-id" ∷ id ∷ []
    else w.python_bin ∷ w.cli_script ∷ "check-task" ∷ "--task-id" ∷ id ∷ []

unfoldable pub status_answer : String → CommandResult → String ⊎ TaskStatusResponse → Checked
status_answer id r parsed = elim r.error [
  | some e ↦ failed (concat ("check-task failed: " ∷ e ∷ " (stderr: " ∷ r.stderr ∷ ")" ∷ []))
  | none ↦ elim parsed [
    | inl e ↦
        failed (concat ("unmarshal status response: " ∷ e ∷ " (stdout: " ∷ r.stdout ∷ ")" ∷ []))
    | inr s ↦
        if s.status == ""
        then failed (concat ("empty status in response for task " ∷ id ∷ []))
        else reported s.status
  ]
]

unfoldable pub check_status :
    (List String → CommandResult)
    → (String → String ⊎ TaskStatusResponse)
    → PythonWorker
    → String
    → Checked
unfolding status_command status_answer
check_status run unmarshal w id =
    let r = run (status_command w id) in status_answer id r (unmarshal r.stdout)
