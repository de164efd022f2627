-- ===== src/Ledger.antt =====
-- `Ledger` of src/qas/db.py: the durable state. Every method is one transaction, and the modules
-- below model each table with the methods that read and write it. The rows of a table stand newest
-- first. A moment (`utc_now`) is an argument of the method that reads the clock.
pub mod Leases
pub mod Events
pub mod Runs
pub mod Failures
pub mod Jobs
pub mod Checkpoints
pub mod Operations
pub mod Usage
use qwen_autonomous_supervis.Prelude.{List, []}
use Leases.{Lease}
use Events.{Event}
use Runs.{Run}
use Failures.{Failure}
use Jobs.{Job}
use Checkpoints.{Checkpoint}
use Operations.{Operation}

pub record Ledger : Type 0 where
  pub events : List Event
  pub runs : List Run
  pub leases : List Lease
  pub failures : List Failure
  pub checkpoints : List Checkpoint
  pub operations : List Operation
  pub jobs : List Job

-- A new database.
abbrev pub empty : Ledger
empty = record {
  events = [];
  runs = [];
  leases = [];
  failures = [];
  checkpoints = [];
  operations = [];
  jobs = [];
}
