-- ===== src/Startup.antt =====
-- main.go: the order in which the program is put together, started and shut down, with the end of
-- SlackGateway.Start (gateway/slack.go), whose goroutine runs beside main. What the machine answers, and
-- what happens in which order, is an argument; `join_path` is filepath.Join. The calls are listed in
-- order. A deferred call runs at a return and not after log.Fatal.
pub mod Shutdown
mod Tests
use agentfactory_gateway.Common.{
  String, Bool, true, false, ◌≡◌, ◌↔◌, refl, Option, none, some, List, [], ◌∷◌, ◌++◌, if◌then◌else◌,
  ◌==◌, ◌/=◌, ◌||◌, ◌&&◌, not, Option-cases, Bool-cases, arith, inl, inr, ℕ, suc,
}
use agentfactory_gateway.Common.Dict.{Dict}
use agentfactory_gateway.Common.Text.{◌<>◌}
use agentfactory_gateway.Config.{Config, load, validate, load_env}
use agentfactory_gateway.Config.Env.{IsGiven, validate-load_env}
use agentfactory_gateway.Worker.Python
use agentfactory_gateway.Worker.Python.{PythonWorker, new_python_worker, with_af_cli}
use agentfactory_gateway.Worker.Stream.{StreamWorker, new_stream_worker}

pub data Step : Type 0 where
  fatal : String → Step
  open_store : String → Step
  new_gateway : String → String → PythonWorker → StreamWorker → Step
  recover reconcile start_gateway stop_gateway : Step
  -- the wait for the gateway to drain its workers, which it does or which times out
  drain : Bool → Step
  close_store : Step

-- What happens to the running program, one after the other, while main and the goroutine of Start run
-- side by side: a signal comes, the socket ends on its own, RunContext looks at its context, Start goes
-- on after RunContext, main goes on from its select, and the ten seconds are over. Where both cases of
-- the select are ready, `pick` takes that of the context.
pub data Event : Type 0 where
  signals socket_ends looks start_goes_on expires : Event
  main_goes_on : (pick : Bool) → Event

pub data StartState : Type 0 where
  in_run_context in_stop returned : StartState

-- main waits for the signal or for Start, then, after a signal, for Start or the ten seconds.
pub data MainState : Type 0 where
  waiting draining finished : MainState

-- `ctx_cancelled` is the context of main, given to Start; `stop_ctx_cancelled` is stopCtx of the gateway.
pub record Running : Type 0 where
  pub ctx_cancelled : Bool
  pub stop_ctx_cancelled : Bool
  pub start : StartState
  pub main_state : MainState

-- Start hands stopCtx to RunContext, which returns when that is cancelled.
unfoldable pub look : Running → Running
look r = elim r.start [
  | in_run_context ↦ if r.stop_ctx_cancelled then record r { start = in_stop } else r
  | in_stop ↦ r
  | returned ↦ r
]

unfoldable pub end_socket : Running → Running
end_socket r = elim r.start [
  | in_run_context ↦ record r { start = in_stop }
  | in_stop ↦ r
  | returned ↦ r
]

-- Start calls Stop after RunContext, and Stop cancels stopCtx.
unfoldable pub start_on : Running → Running × List Step
start_on r = elim r.start [
  | in_run_context ↦ (r, [])
  | in_stop ↦ (record r { start = returned; stop_ctx_cancelled = true }, stop_gateway ∷ [])
  | returned ↦ (r, [])
]

abbrev pub has_returned : StartState → Bool
has_returned returned = true
has_returned _ = false

-- The two selects of main; the last close_store is the deferred one.
unfoldable pub main_on : Bool → Running → Running × List Step
main_on pick r =
    let ended = has_returned r.start in
    elim r.main_state [
      | waiting ↦
          if r.ctx_cancelled && (pick || not ended)
          then (record r { main_state = draining }, [])
          else if ended
          then (record r { main_state = finished }, close_store ∷ [])
          else (r, [])
      | draining ↦
          if ended
          then (record r { main_state = finished }, drain true ∷ close_store ∷ close_store ∷ [])
          else (r, [])
      | finished ↦ (r, [])
    ]

unfoldable pub expire : Running → Running × List Step
expire r = elim r.main_state [
  | waiting ↦ (r, [])
  | draining ↦ (record r { main_state = finished }, drain false ∷ close_store ∷ close_store ∷ [])
  | finished ↦ (r, [])
]

unfoldable pub happen : Event → Running → Running × List Step
unfolding look end_socket start_on main_on expire
happen signals r = (record r { ctx_cancelled = true }, [])
happen socket_ends r = (end_socket r, [])
happen looks r = (look r, [])
happen start_goes_on r = start_on r
happen (main_goes_on pick) r = main_on pick r
happen expires r = expire r

abbrev pub is_finished : MainState → Bool
is_finished finished = true
is_finished _ = false

-- Nothing happens after main has returned.
unfoldable pub happen_all : List Event → Running → Running × List Step
unfolding happen
happen_all [] r = (r, [])
happen_all (e ∷ events) r =
    let (r', steps) = happen e r in
    let (r'', more) = happen_all events r' in
    if is_finished r.main_state then (r, []) else (r'', steps ++ more)

abbrev pub just_started : Running
just_started = record {
  ctx_cancelled = false;
  stop_ctx_cancelled = false;
  start = in_run_context;
  main_state = waiting;
}

-- Whether the database can be opened, and what happens after the gateway is started. The errors of the
-- recovery, of Start and of Close are only logged.
pub record Machine : Type 0 where
  pub env : Dict String
  pub file : Option (List String)
  pub open_error : Option String
  pub events : List Event

module _ (join_path : String → String → String) where
  unfoldable pub worker_script : Config → String
  worker_script c = if c.af_work_dir /= "" then join_path c.af_work_dir "worker.py" else "worker.py"

  unfoldable pub python_worker : Config → PythonWorker
  unfolding worker_script new_python_worker with_af_cli
  python_worker c =
      let w = record (new_python_worker c.python_bin) { script = worker_script c } in
      if c.af_cli_bin /= "" then with_af_cli c.af_cli_bin w else w

  unfoldable pub stream_worker : Config → StreamWorker
  unfolding worker_script new_stream_worker
  stream_worker c = record (new_stream_worker c.python_bin) { script = worker_script c }

  -- main after the store is open
  unfoldable pub run_gateway : Config → Machine → List Step
  unfolding python_worker stream_worker happen_all
  run_gateway c machine =
      new_gateway c.slack_bot_token c.slack_app_token (python_worker c) (stream_worker c)
      ∷ recover
      ∷ reconcile
      ∷ start_gateway
      ∷ (happen_all machine.events just_started).1

  -- main after Validate has answered
  unfoldable pub after_validate : Config → Option String → Machine → List Step
  after_validate c (some e) machine = fatal e ∷ []
  after_validate c none machine = open_store "gateway_state.db" ∷ elim machine.open_error [
    | some e ↦ fatal ("Failed to initialize SQLite state store: " <> e) ∷ []
    | none ↦ run_gateway c machine
  ]

  -- the init of env_loader.go, and main
  unfoldable pub main : Machine → List Step
  main machine =
      let c = load (load_env machine.file machine.env) in after_validate c (validate c) machine

abbrev pub is_start : Step → Bool
is_start start_gateway = true
is_start _ = false

abbrev pub starts : List Step → Bool
starts [] = false
starts (s ∷ steps) = is_start s || starts steps

run_gateway-starts :
    (join_path : String → String → String) (c : Config) (machine : Machine)
    → starts (run_gateway join_path c machine) ≡ true
unfolding run_gateway
run_gateway-starts join_path c machine = refl

after_validate-starts :
    (join_path : String → String → String) (c : Config) (answer : Option String) (machine : Machine)
    → (starts (after_validate join_path c answer machine) ≡ true)
      ↔ ((answer ≡ none) × (machine.open_error ≡ none))
unfolding after_validate
after_validate-starts join_path c (some e) machine = (λ h. cc, λ h. cc (h.0))
after_validate-starts join_path c none machine = elim (Option-cases machine.open_error) [
  | inl fine ↦
      rw (fine, after_validate) (λ h. (refl, refl), λ h. run_gateway-starts join_path c machine)
  | inr (e, bad) ↦ rw (bad, after_validate) (λ h. cc, λ h. cc (h.1))
]

-- The program starts the gateway exactly when both tokens are given, by the system or by the file, and
-- the database can be opened.
pub main-starts :
    (join_path : String → String → String) (machine : Machine)
    → (starts (main join_path machine) ≡ true) ↔ (
        (IsGiven "SLACK_BOT_TOKEN" machine.file machine.env
          × IsGiven "SLACK_APP_TOKEN" machine.file machine.env)
        × (machine.open_error ≡ none))
unfolding main
main-starts join_path machine =
    let c = load (load_env machine.file machine.env) in
    let (needs, gives) = after_validate-starts join_path c (validate c) machine in
    let (reads, accepts) = validate-load_env machine.file machine.env in
    (λ h. (reads (needs h).0, (needs h).1), λ (given, fine). gives (accepts given, fine))
