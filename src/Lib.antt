-- ===== src/Lib.antt =====
-- agentfactory-gateway: a verification library beside the Go sources.
--
-- The gateway takes messages from Slack, queues them as tasks, runs them in worker processes whose
-- events it renders as Slack messages, and keeps a persisted record of each task for recovery.
--
-- Parts and files
-- - gateway/queued_task.go: Queue/Task is the task, its status and Transition; Queue/Lifecycle the
--   diagram of the statuses.
-- - gateway/task_queue.go: Queue/State is the record TaskQueue and what only reads it, Queue/Methods
--   the methods that change it, under the names of the source in snake_case. A method takes the
--   state (`World`: the queue and the counters of gateway/metrics.go) and returns the new one with
--   its result and the task that onDequeue is called with. Queue/Sections makes each stretch of code
--   under the mutex an action; MarkDone is finish_running followed by try_dequeue, and other
--   goroutines may come between. Queue/Waiting and Queue/Cases hold the lemmas on the waiting list
--   and the case lemmas; Invariant, Safety, Dequeue, Progress, Tracking, Slots, Leak, Gauges and
--   Enqueue hold the proofs.
-- - gateway/metrics.go: Metrics, the counters. An int64 is its bit pattern below 2^64.
-- - worker/throttler.go and the event types of protocol/protocol.go: Throttler, with the calls of
--   flushFn as a list, and the parts of Flush and of the timer's flush as steps of
--   goroutines; Throttler/Delivery holds the proofs.
-- - state/state_manager.go: State/Json, the records that JSONStateManager keeps in memory; State/File,
--   its file and what a Set that fails or is cut short leaves there. State/Laws and
--   State/Listing hold proofs.
-- - gateway/slack.go: Gateway/ProgressCache, the debouncing of writes for progress events;
--   Gateway/Stream, the callbacks of a streaming task, those of dispatchQueuedTask and
--   handleMentionStream as one with the source of the task as an argument; Gateway/Interactive, the
--   interactive callbacks, the stop and retry actions, Stop and ReconcileAfterRecovery;
--   Gateway/Mention, the start of a task by a message, with proofs in Start;
--   Gateway/Connection, the health of the connection; Gateway/Events, handleEvent and the replies with
--   the plain worker's answer; Gateway/Wiring, NewSlackGateway; Gateway/Loop, the loop of Start.
--   Recorded, Actions, Reconciled and Stale hold proofs.
-- - protocol/protocol.go: Protocol, the payload of an event.
-- - gateway/renderer*.go: Render. A message is the list of its blocks (Render/Kit, the calls of
--   slack-go's constructors as data); Render/Start, Progress, Done, Hitl, Helpers and Card hold the
--   builders of the file of that name. Bar, Grid, Layout and Texts hold the proofs; Fixed is a type of
--   numbers that meets the assumptions on float64.
-- - gateway/interaction_handler.go: Interaction. Effects has the calls to Slack, the worker and the
--   state manager as data, Modals the modals, Handler the handlers of actions and submissions, Strings
--   parseValuePayload. An outcome has the calls of the handler and those of its goroutine, which run
--   side by side. Buttons, Press and Submission hold the proofs; Codec meets the assumptions on JSON.
-- - state/interface.go: State/Manager, the interface and its laws, what clients rely on of the status that
--   a Set stores; State/Stores fills
--   it by both stores. state/sqlite_store.go: State/Sqlite, over a database whose statements are a
--   parameter; State/Memory is a database that meets the assumptions; State/Open, NewSQLiteStore,
--   checkpointLoop and Close.
-- - gateway/recovery.go: Recovery, over any state manager; Recovery/Laws holds the proofs.
-- - worker/stream_worker.go: Worker/Stream, StreamWorker and executePython over a list of ticks, what
--   the process does and what happens beside it; Stream/Dispatch, ExecuteDispatch;
--   Stream/External, executeCline and Execute. Order, Stale, Agents and Labels hold the proofs.
-- - worker/cline_adapter.go: Worker/Cline, the events of the lines that Cline prints; Slices, Panics and
--   Colours hold the proofs. worker/python_worker.go: Worker/Python, with proofs in Laws.
-- - config/config.go and env_loader.go: Config, with proofs in Env and Redact.
-- - main.go: Startup, the calls of main in their order, and main beside the goroutine of Start in
--   gateway/slack.go; Startup/Shutdown holds the proofs.
-- - Common: shared names, tests on numbers and texts, lists, maps with text keys, signed
--   integers, and what the sources use of strings, fmt and float64 (Common/Text, Common/Strings, Common/Float).
-- - Tests of a part stand in its module Tests.
--
-- Conventions
-- - A time is a number of time units, 0 for the zero time, in UTC; what time.Now returns is an argument.
--   In State/Sqlite the unit is a nanosecond.
-- - A Go map is an association list. Where the result of a loop over a map depends on the order, the
--   order visited is an argument.
-- - A task is a value: the code hands no pointer to the queue twice.
-- - Every loop is a recursion on a list or a text. Only the printing of a number takes fuel, one more
--   than the number, which is enough: the printed digits read back as the number.
-- - A text is a sequence of characters. A slice of bytes that cuts a character in two leaves one U+FFFD
--   for each byte, as encoding/json writes it.
-- - The lower case of a character, encoding/json, the verb %q, filepath.Join, the database and the
--   processes are arguments.
-- - In Worker/Stream a fire of the timer is one tick with its call of the callback; what other goroutines
--   do between its two parts is in Throttler alone.
--
-- Not modelled: the texts of the errors of Enqueue; the acknowledgements of requests; the loggers and the
-- drain of stderr, which only log.
pub mod Common
pub mod Metrics
pub mod Queue
pub mod Throttler
pub mod State
pub mod Gateway
pub mod Protocol
pub mod Render
pub mod Interaction
pub mod Recovery
pub mod Worker
pub mod Config
pub mod Startup
