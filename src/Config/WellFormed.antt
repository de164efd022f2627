-- ===== src/Config/WellFormed.antt =====
-- What `load_config` of src/qas/config.py accepts, section by section.
use qwen_autonomous_supervis.Prelude.{
  ℕ, ◌<◌, ◌≤◌, ◌≡◌, ◌≢◌, String, str_eq, true, false, Option, none, some, [], exists, All,
}
use qwen_autonomous_supervis.Prelude.Int.{pos}
use qwen_autonomous_supervis.Prelude.Text.{is_blank}
use qwen_autonomous_supervis.Errors.{ok}
use qwen_autonomous_supervis.Config.{
  QwenConfig, SchedulerConfig, RecoveryConfig, ReviewConfig, GateConfig, ObservabilityConfig,
  BudgetConfig, StorageConfig, SupervisorConfig,
}
use qwen_autonomous_supervis.Config.Values.{Builtins}
use qwen_autonomous_supervis.Config.Durations.{number_text, is_duration}
use qwen_autonomous_supervis.Config.Sections.{approval_modes, reasoning_effort_tiers}
use qwen_autonomous_supervis.Config.Limits.{limits_cost, has_price}

-- A text that Python reads as a positive number of seconds, minutes or hours.
abbrev pub IsDuration : Builtins → String → Type 0
IsDuration py s =
    (is_duration s ≡ true) × (x : ℕ) × (py.float_of (number_text s) ≡ ok (pos x)) × (0 < x)

abbrev pub IsTier : Option String → Type 0
IsTier none = Unit
IsTier (some s) = exists (str_eq s) reasoning_effort_tiers ≡ true

abbrev pub IsQwen : Builtins → QwenConfig → Type 0
IsQwen py q =
    (exists (str_eq q.approval_mode) approval_modes ≡ true)
    × (is_blank q.binary ≡ false)
    × IsTier q.reasoning_effort
    × IsDuration py q.max_wall_time
    × (0 < q.max_tool_calls)
    × (0 < q.max_session_turns)
    × (0 < q.max_output_tokens)
    × (q.approval_mode ≡ "yolo" → q.sandbox ≡ true)

-- A lease outlives the heartbeats that renew it.
abbrev pub IsScheduler : SchedulerConfig → Type 0
IsScheduler s =
    (0 < s.loop_minutes)
    × (0 < s.heartbeat_seconds)
    × (s.heartbeat_seconds < s.lease_seconds)
    × (0 < s.silence_timeout_seconds)
    × (0 < s.shutdown_grace_seconds)

abbrev pub IsRecovery : RecoveryConfig → Type 0
IsRecovery r =
    (0 < r.maximum_identical_failures) × (0 < r.retry_base_seconds) × (0 < r.retry_maximum_seconds)

-- The reviewer has one tool call.
abbrev pub IsReview : Builtins → ReviewConfig → Type 0
IsReview py r = IsDuration py r.max_wall_time × (r.max_tool_calls ≡ 1)

abbrev pub IsGate : GateConfig → Type 0
IsGate g = (g.command ≢ []) × (0 < g.timeout_seconds)

abbrev pub IsObservability : ObservabilityConfig → Type 0
IsObservability o = (1 ≤ o.port) × (o.port ≤ 65535)

abbrev pub IsLimit : Option ℕ → Type 0
IsLimit none = Unit
IsLimit (some n) = 0 < n

-- A limited cost needs a price.
abbrev pub IsBudgets : ObservabilityConfig → BudgetConfig → Type 0
IsBudgets o b =
    (0 < b.max_tokens_per_tick)
    × (0 < b.max_tokens_per_hour)
    × (0 < b.max_tokens_per_day)
    × (0 < b.max_tokens_per_issue)
    × IsLimit b.max_cost_per_tick
    × IsLimit b.max_cost_per_hour
    × IsLimit b.max_cost_per_day
    × IsLimit b.max_cost_per_issue
    × (limits_cost b ≡ true → has_price o ≡ true)

abbrev pub IsStorage : StorageConfig → Type 0
IsStorage s =
    (0 < s.minimum_free_bytes)
    × (0 < s.max_log_bytes)
    × (0 < s.log_backup_count)
    × (0 < s.artifact_retention_days)
    × (0 < s.maximum_artifacts)

-- No directory is the other one or holds it, and the runtime directory is no file system's root.
abbrev pub IsApart : Builtins → String → String → Type 0
IsApart py runtime project =
    (runtime ≢ project)
    × (exists (str_eq project) (py.parents runtime) ≡ false)
    × (exists (str_eq runtime) (py.parents project) ≡ false)
    × (runtime ≢ py.anchor runtime)

-- What every part of the program may rely on.
pub record IsConfig (py : Builtins) (c : SupervisorConfig) : Type 0 where
  pub apart : IsApart py c.runtime_dir c.project_root
  pub qwen : IsQwen py c.qwen
  pub scheduler : IsScheduler c.scheduler
  pub recovery : IsRecovery c.recovery
  pub review : IsReview py c.review
  pub quality_gates : All IsGate c.quality_gates
  pub observability : IsObservability c.observability
  pub budgets : IsBudgets c.observability c.budgets
  pub storage : IsStorage c.storage
  pub jobs : 0 < c.jobs.max_concurrent
