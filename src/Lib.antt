-- ===== src/Lib.antt =====
-- Two programs. The control plane of the orchestrator (orchestrator/*.py) is a store of lanes,
-- tasks, messages, artifact claims and approvals, and a coordinator that works on it. excel-library
-- (excel-library/src/xllib) inspects workbooks, checks them by rules, and recalculates them; nothing
-- of the one calls the other.
--
-- The parts, and the files that model them:
-- - Models: orchestrator/models.py. Each dataclass is a record and each enumeration a data type with
--   the source's names; Models/LaneKey has normalize_lane_key, Models/Metadata reads the JSON
--   objects that the metadata and the configuration of a lane are.
-- - State: ControlStore of orchestrator/state.py. A table is the list of its rows in the order of
--   insertion, and each statement is a function on it, with the columns that DO UPDATE SET names and
--   the refusals of the unique keys. State/Lanes, Tasks, Messages, Claims and Approvals have one
--   table each, State/Recovery the sweeps over several: expire_orphans and
--   recover_interrupted_tasks; State/Meta has the meta table and the legacy imports, State/Listings
--   what the operator reads.
-- - Locks: ArtifactLockManager of orchestrator/locks.py, on the claims and lanes of the store;
--   Locks/Calls runs any sequence of its calls.
-- - Policy: PolicyRegistry.evaluate_action of orchestrator/policy.py. A policy is a record of the
--   keys that the code reads; Policy/Registry has the policies of policies/registry.json.
-- - Rotation: RotationPolicy of orchestrator/rotation.py, on the counters in a lane's configuration.
-- - Context: ContextEnvelopeBuilder of orchestrator/context.py; Context/Prompt has the prompt of a
--   task.
-- - Agents: AgentLifecycleManager of orchestrator/agents.py. The runtime (AgentRuntime of
--   orchestrator/runtime.py) is the record Host: functions that answer or raise as they will, by the
--   store as it is at the call. A run gives the ids that it reports as it starts and then its
--   outcome. JSON and files are in Host too.
-- - Coordinator: orchestrator/coordinator.py. Coordinator itself has submit_task and delegate_task,
--   Coordinator/Inbox the messages, with the proposals of agents below it, Coordinator/Routing the
--   turn of messages into tasks and the settling of a message by its task, Coordinator/Supervision
--   pauses and approvals, Coordinator/Answers the application of an agent's answer
--   (_apply_agent_response). What a text means as JSON (json.loads) is a parameter there.
--   Coordinator/Execution is _execute_task: its gates, its locks, its handlers and its finally;
--   Execution/Attempt is the body of its try, with _dispatch_run and _recover_startup_failure. The
--   task is an object that outlives an exception there, so that the body passes it along with the
--   store (Execution/Work). Coordinator/Cycle is process, with Cycle/Recovering for recover, the
--   recovery at the start and rotate_lane. How asyncio.gather interleaves the lanes, and what is
--   done with backup files, are parameters.
-- - Legacy: orchestrator/legacy.py. The folder of the old inbox and the paths in it are a parameter.
-- - Service: the lock file of orchestrator/service.py, by what it holds, with the calls of several
--   services in sequence.
-- - Workbook: xllib/inspect of excel-library. Workbook itself has model.py, with the record Library
--   of what is called of Python and of openpyxl; Workbook/Tokens is tokens.py, Workbook/Spans
--   spans.py and Workbook/Graph refs.py. A number is the text of its float.
-- - Lint: xllib/lint. Lint itself has rule.py and inspect/capability.py, Lint/Rules the ten rules
--   with the places of their findings, Lint/Config the gates of config.py and the question which
--   waiver holds, Config/Loading the reading of a file and the search for it, Lint/Report report.py,
--   and Lint/Run api.py, which calls all of these. A rule's check is a function from a workbook and
--   the thresholds and options to its findings, or to an exception.
-- - Recalc: xllib/recalc. Recalc itself has api.py and backend.py, on a list of temporary
--   directories; a backend is a record of whether it is available and what it makes of the bytes of
--   its copy; an exception that leaves the chain is a parameter. Recalc/Cache is cache.py, on the
--   cells of a sheet's XML.
-- - Samples: a small workspace and a small workbook on which the theorems are applied.
--
-- A method is a function from the store to a result and the store after it. What a method wrote
-- before it raised stays written, except in a transaction, which puts the tables back. Failures are
-- the exceptions that the code raises (Result).
--
-- What comes from outside is a field of the store: the n-th reading of the clock, the n-th uuid4,
-- the digest of a workspace, the resolved form of a path and its normal case, the order of a set of
-- two actions, and the text of a JSON value that is none. Times are numbers of microseconds, where
-- the source compares ISO texts of one clock; scores are in hundredths; a JSON number is a count.
-- Native numbers have no bound, as Python's have none. Every loop runs over a list and is recursion
-- on it, but for that of Service.acquire, which has fuel; two turns are enough.
--
-- Not modelled: the SQLite connection, file locks, retries, backups and the migration of the store,
-- the lock of a lane between cycles that overlap, the implementations of the runtime, the conversion
-- of a row's columns to texts and JSON and back (a row is the object itself), the loop of the
-- service, the first lanes of bootstrap, and the command line, the web application and the
-- dashboard. Of excel-library: the loading of a file (inspect/load.py), the zip archive that values
-- are written into, the three backends, which drive spreadsheet engines, and the command line.
pub mod Prelude
pub mod Result
pub mod Models
pub mod State
pub mod Locks
pub mod Policy
pub mod Rotation
pub mod Context
pub mod Agents
pub mod Coordinator
pub mod Legacy
pub mod Service
pub mod Workbook
pub mod Lint
pub mod Recalc
pub mod Samples
