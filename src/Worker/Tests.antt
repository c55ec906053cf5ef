-- ===== src/Worker/Tests.antt =====
-- Runs of worker/, and each theorem about it at a concrete input.
use Prim.Native.Char.{Char, len_utf8, len_utf8_def}
use agentfactory_gateway.Common.{
  String, ◌≡◌, ◌≢◌, refl, ◌⊎◌, true, false, Option, none, some, [], ◌∷◌, if◌then◌else◌, ◌==◌, ◌≤◌,
  length, All, str_dec, text_ne, arith,
}
use agentfactory_gateway.Common.Int.{pos}
use agentfactory_gateway.Common.Strings.{code_is, map_chars, trim_left, trim_right, trim_space}
use agentfactory_gateway.Protocol.{Value, EventPayload, zero_payload}
use agentfactory_gateway.Throttler.{SlackEvent, start, progress, done, push, fire, stop, flush_now}
use agentfactory_gateway.Render.Fixed.{hundredths}
use agentfactory_gateway.Interaction.Effects.{TaskRequest}
use agentfactory_gateway.Worker.Cline.{
  IsLower, ascii_lower, remove_ansi, strip_ansi, panics, parse_line,
}
use agentfactory_gateway.Worker.Cline.Slices.{parse_line-ne-panics}
use agentfactory_gateway.Worker.Cline.Panics.{parse_line-panics}
use agentfactory_gateway.Worker.Cline.Colours.{coloured, plain, parse_line-coloured}
use agentfactory_gateway.Worker.Stream.{
  StreamWorker, event, reads, fires, Process, accept, wait_for, execute_python,
}
use agentfactory_gateway.Worker.Stream.Order.{immediates, heard, execute_python-immediate}
use agentfactory_gateway.Worker.Stream.Dispatch.{
  estimate_agent_count, start_payload, execute_dispatch, context_task_id,
}
use agentfactory_gateway.Worker.Stream.Dispatch.Agents.{HasUniqueIds, execute_dispatch-start}
use agentfactory_gateway.Worker.Stream.External.{prints, ClineRun, execute_cline}
use agentfactory_gateway.Worker.Stream.External.Labels.{HasTask, IsExit, execute_cline-HasTask}

-- ASCII, and the one character whose lower case is longer.
lower : Char → Char
lower c = if code_is 570 c then "ⱥ" else ascii_lower c

lower-ascii : (c : Char) → len_utf8 c ≡ 1 → lower c ≡ ascii_lower c
unfolding lower
lower-ascii c h = ground (arith, len_utf8_def c)

lower-IsLower : IsLower lower
unfolding lower
lower-IsLower = record { ascii = lower-ascii; longer = refl }

parse_line-ne-panics_example : parse_line hundredths lower "1.0s" "  Reading file main.go" ≢ panics
unfolding lower ascii_lower map_chars remove_ansi strip_ansi trim_space trim_left trim_right str_dec
parse_line-ne-panics_example =
    parse_line-ne-panics hundredths lower "1.0s" "  Reading file main.go" lower-IsLower
      (omega arith)

parse_line-panics_example : parse_line hundredths lower "1.0s" "ȺȺȺError:" ≡ panics
parse_line-panics_example = parse_line-panics hundredths lower "1.0s" 1 lower-IsLower

parse_line-coloured_example :
    parse_line hundredths lower "1.0s" (coloured (("E", "1", "m") ∷ []) "rror: disk full")
    ≡ parse_line hundredths lower "1.0s" (plain (("E", "1", "m") ∷ []) "rror: disk full")
parse_line-coloured_example =
    parse_line-coloured hundredths lower "1.0s" (("E", "1", "m") ∷ []) "rror: disk full"
      (((refl, tt), (refl, tt), refl), tt)

abbrev working : SlackEvent (EventPayload hundredths)
working = record {
  type = progress;
  payload = some (record (zero_payload hundredths) { task_id = "t1"; action = "half" });
}

abbrev finished : SlackEvent (EventPayload hundredths)
finished = record {
  type = done;
  payload = some (record (zero_payload hundredths) { task_id = "t1" });
}

-- json.Unmarshal of two lines
abbrev decode : String → Option (SlackEvent (EventPayload hundredths))
decode line = if line == "p" then some working else if line == "d" then some finished else none

abbrev worker : StreamWorker
worker = record { python_bin = "python3"; script = "worker.py"; cline_bin = ""; stopped = false }

abbrev two_lines : Process
two_lines = record {
  setup = none;
  ticks = fires ∷ reads true "noise" ∷ reads true "p" ∷ reads true "d" ∷ [];
  scan_error = none;
  waiting = [];
  wait_error = none;
}

execute_python-immediate_example :
    immediates (execute_python decode worker two_lines).0
    ≡ immediates (heard decode two_lines.ticks false none)
execute_python-immediate_example = execute_python-immediate decode worker two_lines refl

-- The last two calls of the run are the done event and the progress event.
stale_run : (execute_python decode worker two_lines).0 ≡ event finished ∷ event working ∷ []
unfolding execute_python str_dec accept push fire stop flush_now wait_for
stale_run = refl

abbrev two_parts : TaskRequest
two_parts = record { task = "build it| |test it"; task_type = ""; context = []; dispatch = true }

counted : estimate_agent_count two_parts.task ≡ 2
unfolding estimate_agent_count str_dec
counted = refl

dispatched_run :
    (execute_dispatch hundredths decode worker (λ req. two_lines) two_parts ≡ (
      event (record { type = start; payload = some (start_payload hundredths two_parts) })
          ∷ (execute_python decode worker two_lines).0,
      (execute_python decode worker two_lines).1,
    ))
    × ((start_payload hundredths two_parts).total_agents
        ≡ pos (length (start_payload hundredths two_parts).agents))
    × (1 ≤ length (start_payload hundredths two_parts).agents)
    × HasUniqueIds hundredths (start_payload hundredths two_parts).agents
dispatched_run = execute_dispatch-start hundredths decode worker (λ req. two_lines) two_parts

abbrev external : TaskRequest
external = record {
  task = "fix it";
  task_type = "external";
  context = ("task_id", Value.text "t1") ∷ [];
  dispatch = false;
}

abbrev failing : ClineRun
failing = record {
  setup = none;
  before = prints "1.0s" "Running tests" ∷ [];
  wait_error = some "exit status 1";
  between = [];
  ended = [];
  late = prints "2.0s" "Error: late" ∷ [];
}

execute_cline-HasTask_example :
    All
      (λ c. HasTask hundredths (context_task_id external.context) c ⊎ IsExit hundredths c)
      (execute_cline hundredths lower failing external).0
unfolding context_task_id str_dec
execute_cline-HasTask_example =
    execute_cline-HasTask hundredths lower failing external (text_ne "t1" "" refl)
