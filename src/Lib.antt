-- ===== src/Lib.antt =====
-- Orqent's workflow engine: a durable run of a workflow graph, from the graph to the rows of a run.
-- Paths below are from the repository's root.
--
-- Base holds the shared names: Python dicts as association lists (Dicts), exceptions as values
-- (Results), text as code points (Text), Boolean tests and lists.
-- Graph.Model follows src/app/domain/graph/model.py: `graph_node` and `workflow_graph` are the two
-- `__post_init__` methods with the checks in their order, `outgoing`, `incoming` and `node` read
-- the precomputed adjacency.
-- Engine.State follows src/app/domain/engine/state.py and events.py, Engine.Snapshot snapshot.py,
-- Engine.Scheduler scheduler.py (`tick` and its helpers under the source's names without the
-- leading underscore), Engine.Invocation invocation.py with the node contract of
-- src/app/domain/nodes.
-- Runs follows src/app/services/run_service.py: Runs.Store has the rows of one run with the event
-- and queue repositories, Runs.Transitions `_apply` and `_settle`, Runs.Advance `_advance`,
-- `_invoke` and `resume_run`, and Runs.Creation `_materialize` with `create_triggered_run`.
--
-- The service takes a snapshot of the rows, `tick` decides, `apply` writes the decisions through
-- the guards, the started nodes are invoked on the snapshot from before the writes, and each
-- outcome is settled in a transaction of its own. A transaction is a function into the new rows or
-- an exception, and an exception leaves the rows as they were. The loop of `_advance` recurs on the
-- cycles left of its own limit, so no fuel is added. One process advances a run at a time (its
-- queue lease), so between two transactions the rows change only by that process's writes. The resume
-- tokens that executions of other runs hold are a field of the rows, for the unique index over them, and so is the collation by
-- which the database compares tokens.
-- The values that nodes emit are a type parameter. The catalogue of nodes and the runners are the
-- parameter `Registry`, and a reply may depend on the moment of the call. Exception messages and
-- log lines are left out; the values that they name are kept.
-- RateLimit follows src/app/infrastructure/ratelimit/limiter.py, with whole microseconds for the clock.
-- Chunking follows src/app/domain/memory/chunking.py on code points; the loop has the length of the
-- text as fuel, since each round moves the start forward.
-- Graph/Handles follows src/app/domain/nodes/handles.py and `compatible` of
-- src/app/domain/graph/validation/handles.py.
-- Queue follows src/app/infrastructure/queue/mysql_task_queue.py over queue_task.py, with
-- queue_task_repository.py and src/app/domain/value_objects/lease.py (Queue.Leases); Worker follows
-- src/app/infrastructure/worker. The database serves transactions one after another, and the rows
-- that others hold are those that SKIP LOCKED steps over. Queue.OfRun relates the table to the
-- tasks of one run in Runs.Store.
-- Auth follows src/app/services/auth_service.py with its two token repositories. Signing, hashing
-- and address normalisation are the parameter `Secrets`; what they draw at random is an argument.
-- Schedules follows src/app/services/schedule_dispatch_service.py with schedule_repository.py and the
-- rounds of src/app/infrastructure/dispatcher/loop.py up to the first idle wait. The cron library,
-- the validation of a node's configuration and the rendering of a moment are the parameter
-- `Clockwork`. The rounds recur on fuel, and more rounds than schedules are due are enough.
-- Condition follows src/app/infrastructure/nodes/builtin/core_condition.py, with what Python tells of
-- a value in the parameter `Values`.
-- Graph.Validation follows src/app/domain/graph/validation: `resolve` (`_resolve`), config, handles and
-- structure as the four stages, `validate_graph` and `is_valid`; Graph.Issues the issues and their
-- order. The catalogue is a function from a type and a version to what validation reads of its
-- descriptor; Pydantic's refusals are the locations that it lists. Graph.Cycles is `_find_cycles`
-- with its colours, path, positions and stack, Graph.Reach is `_reachable_from`. Each of their `while`
-- loops has a bound of rounds, enough since a search enters and leaves each node once (two rounds for
-- each node, and two more) and a node enters the queue once. Graph.Validation.Rules says without the
-- code what a publishable graph is; Engine.FanIn joins validation to the scheduler's test.
-- Authoring follows src/app/services/workflow_service.py: Authoring.Tables has the rows of versions and
-- their graphs with workflow_version_repository.py (`nodes_of` is `list_nodes`), Authoring.Drafts
-- `_ensure_draft`, `get_draft`, `replace_draft` and `validate_draft`, Authoring.Publishing `publish` and the
-- two `_register` methods (`checked` and `write_release` are its halves before and after the first write),
-- Authoring.Workflows `create`, `update_metadata` and `soft_delete`.
-- Transactions are served one after another; what two saves do that overlap is not covered.
--
-- Condition.Comparison says what the operators mean, Engine.Scheduler.Upstream what live and dead edges
-- are, and RateLimit.Histories which calls a limiter has served, all without the code's tests.
--
-- Not modelled: the HTTP API, database access itself, the LLM and vector adapters, the frontend;
-- and so far the reads of workflows and versions, registration of accounts, the webhook receiver, the
-- other built-in nodes and memory ingestion.
pub mod Base
pub mod Chunking
pub mod Graph
pub mod Engine
pub mod Runs
pub mod Queue
pub mod Worker
pub mod Auth
pub mod Authoring
pub mod Schedules
pub mod Condition
pub mod RateLimit
pub mod Examples
