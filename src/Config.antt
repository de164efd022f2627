-- ===== src/Config.antt =====
-- The configuration of src/qas/config.py. Durations are in seconds unless a comment says otherwise, and
-- a float is counted in millionths.
pub mod Durations
pub mod Values
pub mod Holds
pub mod Sections
pub mod Limits
pub mod Load
pub mod WellFormed
pub mod Accepted
pub mod Invariant
use qwen_autonomous_supervis.Prelude.{ℕ, String, Bool, Option, List}

pub record QwenConfig : Type 0 where
  pub binary : String
  pub model : String
  pub approval_mode : String
  pub sandbox : Bool
  pub persistent_retry : Bool
  pub max_wall_time : String
  pub max_tool_calls : ℕ
  pub max_session_turns : ℕ
  pub max_output_tokens : ℕ
  pub use_system_certificate_store : Bool
  pub reasoning_effort : Option String
  pub exclude_tools : List String
  pub environment_allowlist : List String

pub record SchedulerConfig : Type 0 where
  -- in millionths of a minute
  pub loop_minutes : ℕ
  pub lease_seconds : ℕ
  pub heartbeat_seconds : ℕ
  pub silence_timeout_seconds : ℕ
  pub shutdown_grace_seconds : ℕ

pub record RecoveryConfig : Type 0 where
  pub maximum_identical_failures : ℕ
  pub retry_base_seconds : ℕ
  pub retry_maximum_seconds : ℕ

pub record ReviewConfig : Type 0 where
  pub enabled : Bool
  pub model : String
  pub max_wall_time : String
  pub max_tool_calls : ℕ
  pub maximum_critical_findings : ℕ

pub record GateConfig : Type 0 where
  pub name : String
  pub command : List String
  pub timeout_seconds : ℕ

pub record GovernanceConfig : Type 0 where
  pub protected_paths : List String

pub record ObservabilityConfig : Type 0 where
  pub host : String
  pub port : ℕ
  -- in millionths
  pub input_cost_per_million : ℕ
  pub output_cost_per_million : ℕ

pub record BudgetConfig : Type 0 where
  pub max_tokens_per_tick : ℕ
  pub max_tokens_per_hour : ℕ
  pub max_tokens_per_day : ℕ
  pub max_tokens_per_issue : ℕ
  -- in millionths
  pub max_cost_per_tick : Option ℕ
  pub max_cost_per_hour : Option ℕ
  pub max_cost_per_day : Option ℕ
  pub max_cost_per_issue : Option ℕ

pub record StorageConfig : Type 0 where
  pub minimum_free_bytes : ℕ
  pub max_log_bytes : ℕ
  pub log_backup_count : ℕ
  pub artifact_retention_days : ℕ
  pub maximum_artifacts : ℕ

pub record JobsConfig : Type 0 where
  pub max_concurrent : ℕ

pub record SupervisorConfig : Type 0 where
  pub config_path : String
  pub project_root : String
  pub runtime_dir : String
  pub qwen : QwenConfig
  pub scheduler : SchedulerConfig
  pub recovery : RecoveryConfig
  pub review : ReviewConfig
  pub governance : GovernanceConfig
  pub quality_gates : List GateConfig
  pub dogfood_scenarios_directory : String
  pub observability : ObservabilityConfig
  pub budgets : BudgetConfig
  pub storage : StorageConfig
  pub jobs : JobsConfig
