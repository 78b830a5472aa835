-- ===== src/Lib.antt =====
-- A verification library for QiYan, a bot that manages coding-agent sessions over chat. The program
-- is TypeScript over SQLite tables. This library models the parts that decide what happens once and
-- what survives a crash: the inbox and the outboxes, the operation ledger and the authority that a
-- message of the owner gives, the schedulers, the admission of work to an endpoint, the requests to an
-- agent's server, the retry of failed turns and the replay of a worker's events to the web panel.
--
-- Events from Slack (ChatApps/Slack/Events.antt: src/chat-apps/slack/event-classifier.ts) are taken in
-- or dropped by `classify_slack_event`, and those taken in become rows of an inbox
-- (ChatApps/Slack/Inbox.antt: inbox-store.ts), which hands them out one at a time, in order. What the
-- inbox promises is the queue of Inbox/Queue.antt: `serve` there is the abstract answer to each call,
-- and `view` the queue that the rows stand for.
--
-- A message may hold a directive (Directives/Parser.antt: src/directives/parser.ts), which
-- `parse_directive` reads. Which message authorizes a guarded tool call of the assistant is decided by
-- Assistant/AttemptScope.antt (src/assistant/attempt-scope.ts) over that parser and the ledger below:
-- `select` and its checks are `choose_source`, the transaction is `commit`.
--
-- What the assistant runs next is decided by Assistant/Scheduler.antt (src/assistant/scheduler.ts):
-- the methods keep their names, a call returns the job that it starts, and a run is a list of calls
-- with their readings of the clock.
--
-- AppServer/RpcClient.antt (src/app-server/rpc-client.ts) is the client of an agent's server; the
-- promises of its requests are the entries of `settled`.
--
-- Chat deliveries (Storage/Deliveries.antt: src/storage/delivery-store.ts) are rows in an outbox,
-- which the worker (ChatApps/DeliveryWorker.antt: src/chat-apps/shared/delivery-worker.ts) sends
-- through a chat adapter. `processOne` is `process_one`, its `catch` is `after_error`; a row goes
-- through `prepared`, `dispatched`, and `confirmed`, `failed` or `uncertain`. When the worker drains
-- the queue (`start`, `wake`, `armRetry`, `stop`) is ChatApps/DeliveryWorker/Wakeups.antt.
--
-- Tool calls of the assistant (Storage/Operations.antt: src/storage/operation-store.ts) are rows of
-- a ledger. A write may carry the fence of the attempt that makes it; `write` is the UPDATE with
-- that test, and `uncertainTransition` where no row changed. A directive's authorization is a row of
-- its own, which `bind_directive` inserts.
--
-- The inputs of the assistant (Storage/SourceContexts.antt, the same file) are numbered as they
-- arrive; `createWebGoalIntent` stores two of them in one transaction, and a context that is
-- superseded points to its recovery.
--
-- Storage/SessionControls.antt (src/storage/session-control-store.ts) keeps the settings that wait
-- for a session's next turn, and who controls its goal.
--
-- Scheduled messages (Scheduling/) are rows of `schedules` (Schedules.antt: schedule-store.ts). One
-- pass of the engine (Engine.antt: trigger-engine.ts) fires those that are due through `fire`
-- (Service.antt: scheduling-service.ts), which claims the single-fire key in the ledger of sends
-- (Outbox.antt: send-outbox.ts) before it sends.
--
-- Endpoints/AdmissionGate.antt (src/endpoints/admission-gate.ts) is the gate that hands out leases
-- for work on an endpoint and drains them. Sessions/TransientRetry.antt
-- (src/sessions/transient-turn-retry.ts) retries turns that failed for a passing reason,
-- and Sessions/RestartRecovery.antt (src/sessions/runtime-restart-recovery.ts) has workers resume that
-- a lost runtime interrupted.
-- Assistant/LifecycleBuffer.antt (src/assistant/lifecycle-buffer.ts) keeps early notifications.
-- Core/BackgroundFailure.antt (src/core/background-failure-reporter.ts) limits the notices about a
-- failure that recurs. Webui/WebBus/Replay.antt (src/webui/web-bus.ts) is the replay buffer of one
-- subscription.
--
-- A larger component has its data, and the operations that the rest is made of, in files below its own:
-- Deliveries/Rows, Operations/Rows and Writes, DeliveryWorker/Warnings, Slack/Events/Shapes,
-- Slack/Inbox/Records and Reading, RpcClient/Messages, AttemptScope/Sources, Scheduler/Jobs and Pump
-- (the timer of the events, and `pump`).
--
-- A table is the list of its rows in the order of insertion (Prelude/Table.antt); an UPDATE by key is
-- `modify`, its count of changed rows `changes`. A method that throws returns a `Result` of Core.antt
-- beside the state that it leaves. A transaction that throws returns the state before it.
-- `Date.now()` and random identifiers are arguments; a promise that is awaited is a function on the
-- world, or its outcome is an argument. JSON values are their texts. A file called Tests.antt runs
-- the definitions on concrete data.
--
-- Fuel stands only in `pump` of the assistant's scheduler, whose `finally` may start it again: 1 is
-- enough (Scheduler/Rounds.antt, `pump_once`). Every other loop is over a list, and the four attempts
-- to upload an attachment are counted down. Numbers that SQLite and JavaScript keep below 2^53 are
-- natural numbers.
--
-- JSON is read as far as the code looks at it; the content of a Slack message is normalised by a
-- function that is an argument.
--
-- Not modelled: SQLite itself (a primary key is trusted to be unique where the code relies on it),
-- the network, the processes on the endpoints, the timer of the engine, the waits of a guarded call
-- for its message's submission, and the parts that are not named above.
pub mod AppServer
pub mod Assistant
pub mod ChatApps
pub mod Core
pub mod Directives
pub mod Endpoints
pub mod Prelude
pub mod Scheduling
pub mod Sessions
pub mod Storage
pub mod Webui
