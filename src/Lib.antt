-- ===== src/Lib.antt =====
-- orca-ts, the loop runtime of src/loop: a workflow that evaluates a state, picks an action, takes a
-- step and repeats, under guards; with a bounded context, and with branches that run side by side.
--
-- Base      Boolean tests, lists over the native numbers, results and texts. A text is the list of its
--           UTF-16 code units, so that its length is the one that the program takes.
-- Model     src/model/schemas.ts and src/model/errors.ts: usage, backend tags, runtime errors, JSON
--           values; the host's digest, paths and file system as records of functions. Utf8 is what
--           node:fs makes of a text that it writes and reads.
-- Loop      src/loop:
--   Termination  termination.ts. Budget is TokenBudgetCounter, Detector is
--                makeFingerprintStuckDetector on the projected fingerprints.
--   Context      context/compaction.ts (`compact` and its stages) and context/offload.ts
--                (`createOffloadStore` with `intercept` and `resolve`).
--   Execution    execution.ts. Step is normalizeStepResult and its readers, Managed is
--                createManagedContext and mergePressure, Run is executeLoop; Rounds says what
--                is asked of a round, Steps and Guards are on its parts, Outcome on the whole.
--   FanOut       fanout.ts. Branches is fanOut and condense (Spread is on them), Join is fanIn, the partial-failure
--                gate and the choice by policy.
--   Graph        graph/analyze.ts (Analyze; Topology, Fuel and Search are on its search) and
--                termination-contract.ts (Contract).
--   State        state/manifest.ts (Manifest): measure, progress, isComplete.
--   Firing       firing.ts: what a supervisor gives a child process, and what its exit code says.
-- Conversation  src/conversation: Queue is queue.ts, BoundedAsyncQueue, the channel of a conversation's
--           events; Settlement is settlement-reservation.ts, its reservations; Stream is
--           conversation.ts, StreamConversation, on top of both. Its abstract view is in
--           Stream/Phases, and a callback that settles is a value that `publish` runs.
-- Backends  src/backends: Stream is what the consumers of a backend's lines share, Codex is
--           codex-jsonl.ts, Claude claude-stream-json.ts and Pi pi-rpc.ts. A consumer gives the calls
--           of emit, succeed and fail that it makes of its conversation. Codex/Arguments is
--           codexExecJsonlArgs.
-- Cli       src/cli/args.ts: Args is parseCliArgs, Skills the arguments of `orcats skills`.
-- Tasks     of src/plan: Persistent is persistent.ts, with sequentialTaskStrategy; it stands in the
--           folder of the same name.
-- Review    src/review: selectReviewers of reviewers.ts; runReviewersParallel, runReviewPhase and
--           reviewAndFixStrategy of loop.ts. Both strategies run on executeLoop, their variables
--           being its world.
-- Monitor   src/monitor/index.ts, WorkflowMonitor: its log is the state, what it tells the reporter goes
--           to the end of a list of events.
-- Tests     runs at concrete inputs.
--
-- How the code corresponds. Stateful code passes its state: LoopState holds the local variables of
-- executeLoop and a world, which is whatever the callbacks (evaluate, execute, now, onCycle and the
-- file system) read and change. An awaited call is one step of the world; in the queue, where
-- interleavings matter, what runs after an await is a step of its own. A failure is a Result; an
-- exception that the code rules out is the `none` of an Option, and one that escapes a consumer of
-- lines is `throws`. executeLoop is `for (;;)`, here
-- recursion on fuel, one unit a round: a limit of n iterations needs n + 1. The search of a graph is
-- recursion on fuel, one unit a nested visit, which first turns a white node grey: as many units as
-- there are nodes are enough. Numbers are naturals: token counts are so by their schema; JSON numbers
-- that are negative or fractional are left out. Optional fields are Options. JSON.stringify is an
-- argument of the fan-in, the engine that runs branches an argument of the fan-out; a consumer takes
-- JSON.parse of a line as an argument. The cast to the type of a line checks nothing: a Codex or Claude
-- line is malformed, or null, or has the declared fields; one whose fields have other types is left
-- out. Pi catches whatever a line throws, which is the error of its reading.
--
-- Not modelled: the fingerprint texts (stableStringify, fnv1a32), the store-backed fan-out, the path
-- that names the cycle of a declared back-edge, the loop builder, the state store, the supervisor of
-- serve, fixLoop of the review, the rendering of runs, the OpenCode stream, and the code that only talks to processes, files
-- or the network.
pub mod Base
pub mod Model
pub mod Loop
pub mod Conversation
pub mod Backends
pub mod Cli
pub mod Plan
pub mod Review
pub mod Monitor
mod Tests
