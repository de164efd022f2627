-- ===== src/Lib.antt =====
-- Qwen Autonomous Supervisor: a model of the supervisor's durable state and of the code that changes it.
--
-- The program runs a coding model in ticks. All that must survive a crash is in one SQLite database, the
-- ledger; a tick takes the coordinator's lease, looks at the repository, runs the coordinator, verifies
-- what it did (worktree, protected paths, secrets, quality gates, an independent review) and writes the
-- outcome to the ledger. Background jobs and remote mutations keep their state in the same ledger.
--
-- Which file models what:
--   Ledger        `Ledger` of src/qas/db.py. One child for each table: Leases, Events, Runs, Failures, Jobs,
--                 Checkpoints, Operations, and Usage for `usage_totals`. A method is one transaction and
--                 becomes one function on the table, which is a list with the newest row first.
--   Jobs          `start_job` and `poll_job` of src/qas/jobs.py. Lifecycle and Permanence follow sequences
--                 of commands as a step relation.
--   Operations    `IdempotentOperationRunner.ensure` of src/qas/operations.py, over a remote world that the
--                 callbacks read and change.
--   Policy        src/qas/policy.py: the protected paths and the gates, with Changes for `changed_paths` and
--                 Secrets for `scan_added_secrets`.
--   Process       `run_process` of src/qas/process.py: Log for the output file and its backups, Events for
--                 `_extract`, and Run for the loop over the messages of the process.
--   Qwen          the callbacks of `_run` and `validated_output` of src/qas/qwen.py.
--   Runtime       src/qas/runtime.py: Budgets; Tick with the phases of the `try` block of `tick` (Phases,
--                 Review), its `except` clauses (Handler) and the whole (Run); Recovery for `recover`,
--                 Evidence for what it and a failed tick note about the worktree, Artifacts for
--                 `_retain_artifacts`, and Loop for `loop`.
--   Config        src/qas/config.py: the data classes, and `load_config` with the functions for a value
--                 (Values, Durations) and for a section (Sections, Limits).
--   Campaign      src/qas/campaign.py: `active_campaign`, `kill_active_agent` and the start of
--                 `run_campaign`, with Finish for its end.
--   Audit         `audit_governance` of src/qas/governance_audit.py.
--   Http          `serve` and its request handler of src/qas/httpd.py.
--   Errors, Effects, Json, Prelude
--                 exceptions, code with state and exceptions, JSON values, and shared helpers.
--   Examples      the code on concrete inputs.
--
-- The parts meet in the ledger: Runtime calls the functions of the tables on a state that holds the whole
-- ledger, the sessions of Qwen change its runs and leases, and Jobs and Operations work on their tables.
-- Effects writes code that may raise as a function of the state; what was written before an exception
-- stays written. Effects.Rules and Effects.Returns have a rule for each way to build such code.
--
-- What is outside is an argument: the answers of git, GitHub, the file system, the clock and the model to a
-- tick (Runtime.Answers), the host's answers to a job command (Launch and Look), the callbacks of an
-- operation (Callbacks, with what they are trusted with in IsFaithful), what a process and its clock do in a
-- turn of the loop over its messages (Turn), the host of a configuration file (Builtins), and `fnmatch`,
-- `json.loads`, the hashes and the regular expressions (Tools). A clock reads microseconds; a float is
-- counted in millionths, so a NaN or an infinity has no value in the model, and costs are exact.
--
-- Fuel is used to write a number in decimal, one unit for a digit, and for the loop of `changed_paths`, one
-- unit for an item, of which each turn takes at least one; all other recursion is structural. The rounds
-- of the scheduler and the turns of `run_process` are as many as the outside gives.
--
-- Not modelled: the report of status in src/qas/runtime.py; the command line and the environment that
-- src/qas/qwen.py gives the model; the start, the threads, the pipes and the signals of src/qas/process.py;
-- the threads of a campaign; the hashes and the canonical JSON of src/qas/models.py; the command line and the
-- reconciliation with GitHub, which call other programs or print. Transactions of several processes
-- interleave as whole steps; that two commands of src/qas/jobs.py overlap between their own transactions is
-- left out. A statement of SQLite that fails is modelled for the event `tick_started` alone, which stands between
-- the coordinator's lease and the `try` block of a tick; a later failure is left out. NaN and infinite floats,
-- which the checks of src/qas/config.py let through, are no values of the model.
pub mod Prelude
pub mod Json
pub mod Errors
pub mod Effects
pub mod Config
pub mod Ledger
pub mod Jobs
pub mod Operations
pub mod Policy
pub mod Process
pub mod Qwen
pub mod Runtime
pub mod Campaign
pub mod Audit
pub mod Http
pub mod Examples
