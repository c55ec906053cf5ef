-- ===== src/Worker/Stream.antt =====
-- worker/stream_worker.go: StreamWorker over the processes that it starts. What a process does, and what
-- happens beside it, is a list of ticks; `decode` is json.Unmarshal of a line into an event. The calls
-- of the callback are returned as a list. The loggers and the drain of stderr are left out. A fire of the
-- timer is one tick with its call of the callback: the traces where the goroutine of the timer has taken
-- the event and other ticks, or the return of executePython, come before that call are in Throttler
-- (`Shared`), not here.
pub mod Order
pub mod Stale
pub mod External
pub mod Dispatch
use agentfactory_gateway.Common.{
  ℕ, String, Bool, true, false, ◌&&◌, Option, none, some, List, [], ◌∷◌, ◌++◌, if◌then◌else◌, ◌==◌,
  ◌/=◌,
}
use agentfactory_gateway.Common.Text.{◌<>◌}
use agentfactory_gateway.Throttler.{
  SlackEvent, MessageThrottler, new_message_throttler, push, stop, flush_now, fire,
}

-- `stopped` says whether the channel done is closed.
pub record StreamWorker : Type 0 where
  pub python_bin : String
  pub script : String
  pub cline_bin : String
  pub stopped : Bool

unfoldable pub new_stream_worker : String → StreamWorker
new_stream_worker python_bin = record {
  python_bin = python_bin;
  script = "worker.py";
  cline_bin = "";
  stopped = false;
}

unfoldable pub with_cline : String → StreamWorker → StreamWorker
with_cline bin w = record w { cline_bin = bin }

unfoldable pub stop_worker : StreamWorker → StreamWorker
stop_worker w = record w { stopped = true }

-- A call of the callback: cb(event, nil) or cb(nil, err).
pub data Call (E : Type 0) : Type 0 where
  event : E → Call E
  failure : String → Call E

-- The errors, each with the text of the error that it wraps.
pub data RunError : Type 0 where
  marshal_request create_stdout_pipe create_stderr_pipe start_process : String → RunError
  worker_stopped : RunError
  timed_out exited : String → RunError

-- The process prints a line, the throttler's timer fires and its flush runs to its end, Stop is called, or the context ends. Where
-- both are so, select takes the stop if `pick`.
pub data Tick : Type 0 where
  reads : (pick : Bool) → String → Tick
  fires stops : Tick
  expires : String → Tick

-- the select before each line
unfoldable pub verdict : Bool → Bool → Option String → Option RunError
verdict pick true none = some worker_stopped
verdict pick false none = none
verdict pick false (some e) = some (timed_out e)
verdict true true (some e) = some worker_stopped
verdict false true (some e) = some (timed_out e)

-- The events in the order of their delivery; the throttler has the last one first.
unfoldable pub delivered : {E : Type 0} → List E → List (Call E)
delivered [] = []
delivered (e ∷ es) = delivered es ++ event e ∷ []

pub record Reading (P : Type 0) : Type 0 where
  pub throttler : MessageThrottler P
  pub stopped : Bool
  pub expired : Option String

-- What a process does: what fails before it runs, what happens while it is read, how the scanner ends,
-- what happens while Wait waits, and how that ends.
pub record Process : Type 0 where
  pub setup : Option RunError
  pub ticks : List Tick
  pub scan_error : Option String
  pub waiting : List Tick
  pub wait_error : Option String

module _ {P : Type 0} (decode : String → Option (SlackEvent P)) where
  -- the body of the loop after the select
  unfoldable pub accept : String → MessageThrottler P → MessageThrottler P
  accept line t = if line == "" then t else elim (decode line) [ none ↦ t | some e ↦ push e t ]

  -- the loop over the lines
  unfoldable pub read_lines : List Tick → Reading P → Reading P × Option RunError
  unfolding verdict
  read_lines [] r = (r, none)
  read_lines (reads pick line ∷ ticks) r = elim (verdict pick r.stopped r.expired) [
    | some e ↦ (r, some e)
    | none ↦ read_lines ticks (record r { throttler = accept line r.throttler })
  ]
  read_lines (fires ∷ ticks) r = read_lines ticks (record r { throttler = fire r.throttler })
  read_lines (stops ∷ ticks) r = read_lines ticks (record r { stopped = true })
  read_lines (expires e ∷ ticks) r = read_lines ticks (record r { expired = some e })

-- What happens while Wait waits; no line is read.
unfoldable pub wait_for : {P : Type 0} → List Tick → Reading P → Reading P
wait_for [] r = r
wait_for (reads pick line ∷ ticks) r = wait_for ticks r
wait_for (fires ∷ ticks) r = wait_for ticks (record r { throttler = fire r.throttler })
wait_for (stops ∷ ticks) r = wait_for ticks (record r { stopped = true })
wait_for (expires e ∷ ticks) r = wait_for ticks (record r { expired = some e })

unfoldable pub exit_error : Option String → String → RunError
exit_error none e = exited e
exit_error (some c) e = timed_out c

-- if err := scanner.Err(); err != nil { cb(nil, ...) }
unfoldable pub scanned : {E : Type 0} → Option String → List (Call E)
scanned none = []
scanned (some e) = failure ("scan stdout: " <> e) ∷ []

module _ {P : Type 0} where
  -- executePython after the loop, with the deferred Stop of the throttler
  unfoldable pub finish :
      Process → Reading P × Option RunError → List (Call (SlackEvent P)) × Option RunError
  unfolding exit_error scanned delivered
  finish p (r, some e) = (delivered (stop r.throttler).flushed, some e)
  finish p (r, none) =
      let t = r.throttler in
      let r' = wait_for p.waiting (record r { throttler = record t { flushed = [] } }) in
      let before : List (Call (SlackEvent P)) = delivered t.flushed ++ scanned p.scan_error in
      elim p.wait_error [
        | some e ↦ (before ++ delivered (stop r'.throttler).flushed, some (exit_error r'.expired e))
        | none ↦ (before ++ delivered (stop (flush_now r'.throttler)).flushed, none)
      ]

  unfoldable pub execute_python :
      (String → Option (SlackEvent P))
      → StreamWorker
      → Process
      → List (Call (SlackEvent P)) × Option RunError
  unfolding read_lines finish new_message_throttler
  execute_python decode w p = elim p.setup [
    | some e ↦ ([], some e)
    | none ↦ finish p (
        read_lines decode p.ticks
          (record { throttler = new_message_throttler; stopped = w.stopped; expired = none }))
  ]
