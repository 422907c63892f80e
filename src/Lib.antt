-- ===== src/Lib.antt =====
-- Helios CI/CD: a verified model of the platform's control core, by which a run of a pipeline goes from
-- its creation to its end. It is translated from the Go sources; paths are from the repository's root.
--
-- The program. The API and the workers share a Postgres database and Asynq queues. A run stands in
-- `runs`; the machine of api/pkg/runstate moves it, one transaction for each move. Only the checkout
-- handler of the worker bypasses the machine: through api/pkg/runrepo/runrepo.go it writes runs.status
-- directly, without an audit row, and takes a pending run to failed too, which the machine never
-- does. That writer is not modelled: what a theorem states of a run, it states of the machine's moves.
-- A worker that takes an orchestrate task makes one tick (api/pkg/runengine, Advance): it writes the
-- run's stages at the first tick, rebuilds a scheduler (api/pkg/engine) from their stored statuses,
-- takes over decided approvals, and starts the ready stages, by a task in the queue or, for an
-- approval stage, by a request in `approval_requests`. Users vote on requests through
-- api/internal/service/approval.go; the delayed task of a request is handled by
-- api/pkg/approval/timeout.go. A decision moves the run, and
-- queues the next tick; so does the end of a stage.
--
-- The modules.
--   Prelude         shared names, Boolean tests, lists, maps with text keys (Prelude/Maps), decoded JSON
--                   and YAML values (Prelude/Json), strconv, sort and fmt as they are used (Prelude/Texts)
--   Runstate        api/pkg/runstate/runstate.go: the statuses and CanTransition; Machine is Transition,
--                   the Mark wrappers and Status, on the tables `runs` and `audit_logs`
--   Approval        api/internal/model/approval.go and the queries on its tables; Requests is Create and
--                   ListByRun, Voting is vote, Timeouts is HandleTimeout of api/pkg/approval/timeout.go
--   Dsl             api/pkg/dsl/types.go: the pipeline that a project declares; Dsl/Render is render.go
--   Engine          api/pkg/engine: Dag is BuildDAG, Cycles is DetectCycles, Matrix is matrix.go,
--                   Outputs is outputs.go, Scheduler is scheduler.go (NextReady in the parent,
--                   Complete, CancelAll, Done, Outcome and RestoreFromDB in Reports)
--   Runengine       api/pkg/runengine: Rows is store.go, Bootstrap is bootstrap.go and pipeline.go,
--                   Approvals is approval_create.go, Sync, Starting and Orchestrate are orchestrate.go,
--                   Outputs is context.go, outputs_file.go and the outputs in ExecuteStage (execute.go)
--   Tasks           api/pkg/tasks/tasks.go: payloads, Validate and Unmarshal; Queue is api/pkg/queue/fake.go
--   Expr            api/pkg/expr: Lexer is lexer.go, Parser is parser.go (its grammar in Parser/Grammar),
--                   Values and Eval are eval.go, Render is render.go; Texts is Go's bytes and UTF-8
--   Sshrunner       api/pkg/sshrunner/batch.go: serial and rolling runs of a task on hosts
-- A module's theorems stand in its child modules, and its tests and examples in its module Examples.
--
-- The state. A table with a numeric key is a function or a list of rows in the order of insertion; a
-- column that may be NULL is an Option. Nothing of a transaction is kept unless it commits. One that
-- locks the rows it decides on, as Transition and HandleTimeout do with FOR UPDATE, is one step. vote
-- locks the row of the run only and reads the request without a lock, so it is a function of two
-- stores, that of its reads and that of its writes, and Approval/Histories lets other steps come in
-- between; that no other vote on the run does is what the lock gives. The move of the run that follows
-- a commit is taken to follow at once. Statements outside a transaction are steps of their own, and
-- what they wrote stays when a later one fails. Each call of the outside (a statement,
-- a commit, a queue) has a flag, among the arguments, that says whether it fails: the theorems hold
-- for all of them. The clock and the keys that a sequence gives are arguments as well. A time is a
-- number of nanoseconds. A Go map with text keys is an association list, whose order stands for the
-- order in which Go visits the map.
--
-- Parameters. YAML decoding (what LoadPipelineSpec and parsePipeline give for a version) and
-- time.ParseDuration are arguments of the tick, with nothing assumed of them; so is the record Go of
-- Expr: float64, the Unicode tables above Latin-1, %v and JSON. What the steps of a stage give is an
-- argument of execute_stage. A text of Expr, of Dsl/Render and of the outputs is a list of bytes.
--
-- Fuel. Loops are recursions on lists. The depth-first search of DetectCycles is on fuel, one more than
-- the number of nodes: each call within a call colours one more node.
-- The parser of expressions is on fuel, 32 for each token and 32 more: at most 18 calls nest for a token.
--
-- Not modelled: negative durations and YAML floats; the limits of VARCHAR columns; everything that is
-- input and output, such as HTTP handlers, runners, clients of clouds, logs and the web interface; and,
-- so far, the validator, the topological layers (TopologicalSort), and what the steps of a stage do.
pub mod Prelude
pub mod Runstate
pub mod Dsl
pub mod Engine
pub mod Approval
pub mod Runengine
pub mod Tasks
pub mod Sshrunner
pub mod Expr
