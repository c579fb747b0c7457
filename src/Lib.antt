-- ===== src/Lib.antt =====
-- Partha Prime Agent: pull request webhooks become stored events, scans and findings.
--
-- A provider posts a webhook to an endpoint (api/v1/webhooks.py). The webhook service checks its
-- signature, parses it, writes the event in one transaction and schedules the scan orchestration,
-- which prepares a workspace, runs the scanners and stores their findings.
--
-- The files, each with what it models under src/protecto_prime_agent/:
--   Enums                 enums.py and the strings that are stored for the members
--   Json, Json/Keys       what json.loads returns, and the lookups and tests on it
--   Paths                 pathlib.PurePosixPath as far as it is used
--   Platform              the standard library's digests, UTF-8, JSON text and the file system
--   Settings              config.py: the settings and the addresses that they make
--   Redaction             redact_secrets (services/repository_workspace_service.py) and
--                         sanitize_text (scanners/normalization.py), over Redaction/Regex, a
--                         backtracking matcher for the expressions that they use
--   Scm                   integrations/scm.py; Scm/Github and Scm/Bitbucket the two providers, with
--                         what they accept in Payload and Signature
--   Models, Database      models/*.py and database.py: tables, unique columns, transactions;
--                         AuditWriter is SqlAuditWriter (scanners/audit.py); Consistent says what
--                         keys, unique columns and references ask of the tables,
--                         Advisory that nothing is decided and nothing blocks
--   Schema                the migration, alembic/versions/001_initial_schema.py from the root
--                         (Migration), and the tables that models/*.py declare (Declared), over a
--                         catalog of tables and indexes (Defs); Beside, Upgrade and Agree compare them
--   Webhook               services/webhook_service.py: Receive is handle_webhook before its session,
--                         Defs the rest of it; Frame, Outcome, Idempotence, Redelivery,
--                         Correlation, Consistent and Advisory follow the rows through sequences of requests
--   Api                   api/v1/webhooks.py
--   App                   main.py with logging.py, redis_client.py and init_db of database.py: the
--                         middleware around the endpoints, health checks, the start
--   Scanners              scanners/: Interface, Normalization, Registry, Execution and the six
--                         Adapters, with what holds of them in child modules
--   Scanners/Runner       scanners/runner.py: Machine what it asks of the machine, Config
--                         scanners/config.py, One the task of a scanner, Scan the
--                         whole; Described, Complete and Findings follow the results, Undisturbed
--                         what the machine leaves alone
--   Workspace             services/repository_workspace_service.py: Names the places of workspaces,
--                         State what it asks of the machine, Git the commands with their retries, Fetch
--                         what a preparation does with them and its limits on space,
--                         Lifecycle from preparation to removal, Stale the sweep; what holds of
--                         them in child modules
--   Orchestration         services/scan_orchestration_service.py, its services an interface, which
--                         Wired fills; Rows, Stuck, Stored, Keeps, Calls, Decisions, Advisory,
--                         Consistent, Statuses and Ending follow a run, Audited and Quiet what its
--                         services write
--   System                requests, background tasks in any order and restarts, as steps of one state
--   Tests                 the theorems at concrete inputs, on the platform of Tests/Toy
--
-- A method that changes the database is a function from a state to a result and a state (Exec in
-- Prelude/Exec); an exception is a value, and what was changed before it stays changed, except that
-- a session that is left without a commit drops its changes. A request is handled as one step, and
-- so is a background task: sequences of requests are lists, System puts requests and tasks in any
-- order, and interleavings of two transactions are not modelled. Primary keys are numbers from a
-- supply that never repeats one. Each reading of the clock is a value of a function. A float is
-- kept as its text and whether it differs from zero.
--
-- The scanners of a scan run at once: each is a Task (Prelude/Task), which may be interrupted between
-- any two of its calls, and gather takes a schedule that says which task goes on next. When the
-- schedule is used up the rest run in order, so every interleaving has a schedule; once a task has
-- raised, gather raises, and what the other tasks do after that is not followed. What the methods
-- of an adapter read from the file system is fixed for a scan: each asks for it once.
--
-- Code that is not in the repository enters as a parameter: Platform holds the functions of the
-- standard library, Host the file system, Services what the orchestration service is given, the two
-- Machine records what the workspace service and the runner ask of processes and files, and
-- Accepts which scan runs and findings the database takes into its columns.
--
-- Bounds and fuel: a regular expression is matched with the number of characters left as fuel,
-- which each match or skipped character lowers by one; decimal digits take as many steps as the
-- number, which is more than its digits. The loop over the parents of a workspace takes as many steps
-- as the path has parts, and it has no more parents; the loop of retries is by
-- recursion on the retries that are left.
--
-- Not modelled: created_at and the database's own defaults in rows, the widths of columns outside
-- Schema, the connection's failures; reading the environment, the log's format, the construction
-- of clients and alembic/env.py (configuration, input and output); notifications, policy decisions
-- and reports, which the program does not write; what git and the scanners do inside their
-- processes; the log; cancellation of a running task; lone surrogates in texts, on which encoding
-- to UTF-8 raises. File times and the clock count whole seconds.
pub mod Prelude
pub mod Enums
pub mod Json
pub mod Paths
pub mod Platform
pub mod Redaction
pub mod Scm
pub mod Settings
pub mod Scanners
pub mod Models
pub mod Database
pub mod Webhook
pub mod Api
pub mod Workspace
pub mod Orchestration
pub mod Schema
pub mod App
pub mod System
pub mod Tests
