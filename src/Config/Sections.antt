-- ===== src/Config/Sections.antt =====
-- The sections of a configuration file, in `load_config` of src/qas/config.py.
use qwen_autonomous_supervis.Prelude.{
  ℕ, ◌+◌, String, str_eq, Bool, true, false, Option, none, some, List, [], ◌∷◌, ◌&&◌, ◌==◌, leb,
  not, exists,
}
use qwen_autonomous_supervis.Prelude.Int.{ℤ, pos, negsuc, pos_part}
use qwen_autonomous_supervis.Prelude.Text.{◌+s◌, is_blank, decimal}
use qwen_autonomous_supervis.Json.{
  Json, null, bool, int, real, str, arr, Items, nil, cons, Fields, get,
}
use qwen_autonomous_supervis.Errors.{Result, ok, ◌>>=◌, ◌>>◌}
use qwen_autonomous_supervis.Config.{
  QwenConfig, SchedulerConfig, RecoveryConfig, ReviewConfig, GateConfig, GovernanceConfig,
}
use qwen_autonomous_supervis.Config.Values.{
  Builtins, raise_if, get_or, positive, positive_float, non_negative_integer, boolean, text_value,
  list_of_texts, found, string_list, mapping, int_value, duration,
}

-- `approval not in {...}`
abbrev pub approval_modes : List String
approval_modes = "plan" ∷ "default" ∷ "auto-edit" ∷ "auto" ∷ "yolo" ∷ []

abbrev pub reasoning_effort_tiers : List String
reasoning_effort_tiers = "low" ∷ "medium" ∷ "high" ∷ "xhigh" ∷ "max" ∷ []

abbrev pub default_allowlist : List String
default_allowlist =
    "PATH" ∷ "HOME" ∷ "USERPROFILE" ∷ "TEMP" ∷ "TMP" ∷ "APPDATA" ∷ "LOCALAPPDATA" ∷ "SYSTEMROOT"
    ∷ "COMSPEC" ∷ "PATHEXT" ∷ "LANG" ∷ "LC_ALL" ∷ "TERM" ∷ "XDG_CONFIG_HOME" ∷ "XDG_CACHE_HOME"
    ∷ "QWEN_*" ∷ "DASHSCOPE_*" ∷ "OPENAI_*" ∷ "ANTHROPIC_*" ∷ "GH_TOKEN" ∷ "GITHUB_TOKEN"
    ∷ "HTTPS_PROXY" ∷ "HTTP_PROXY" ∷ "NO_PROXY" ∷ "SSL_CERT_FILE" ∷ "NODE_EXTRA_CA_CERTS" ∷ []

abbrev pub default_protected_paths : List String
default_protected_paths =
    "AUTONOMY.md" ∷ ".autonomy/**" ∷ ".github/workflows/**" ∷ ".github/CODEOWNERS" ∷ []

abbrev items_of : List String → Items
items_of [] = nil
items_of (s ∷ ss) = cons (str s) (items_of ss)

-- A tuple of texts as a list value.
abbrev as_value : List String → Json
as_value ss = arr (items_of ss)

abbrev pub effort_of : Option String → Result (Option String)
effort_of o = do
  s ← found o "qwen.reasoningEffort must be one of: low, medium, high, xhigh, max"
  raise_if (not (exists (str_eq s) reasoning_effort_tiers))
      "qwen.reasoningEffort must be one of: low, medium, high, xhigh, max"
  ok (some s)

-- The reasoning effort, which may be absent.
unfoldable pub load_effort : Json → Result (Option String)
load_effort null = ok none
load_effort (bool b) = effort_of none
load_effort (int n) = effort_of none
load_effort (real n) = effort_of none
load_effort (str s) = effort_of (some s)
load_effort (arr xs) = effort_of none
load_effort (Json.obj fs) = effort_of none

module _ (py : Builtins) where
  unfoldable pub load_qwen : Fields → Result QwenConfig
  load_qwen q = do
    let approval = py.str_of (get_or "approvalMode" (str "auto") q)
    raise_if (not (exists (str_eq approval) approval_modes)) "qwen.approvalMode is invalid"
    binary ←
        found (text_value (get_or "binary" (str "qwen") q)) "qwen.binary must be non-empty text"
    raise_if (is_blank binary) "qwen.binary must be non-empty text"
    effort ← load_effort (get "reasoningEffort" q)
    sandbox ← boolean (get_or "sandbox" (bool true) q) "qwen.sandbox"
    retry ← boolean (get_or "persistentRetry" (bool false) q) "qwen.persistentRetry"
    wall ← duration py (get_or "maxWallTime" (str "90m") q) "qwen.maxWallTime"
    calls ← positive (get_or "maxToolCalls" (int (pos 300)) q) "qwen.maxToolCalls"
    turns ← positive (get_or "maxSessionTurns" (int (pos 120)) q) "qwen.maxSessionTurns"
    tokens ← positive (get_or "maxOutputTokens" (int (pos 8192)) q) "qwen.maxOutputTokens"
    store ←
        boolean (get_or "useSystemCertificateStore" (bool false) q) "qwen.useSystemCertificateStore"
    excluded ← string_list (get_or "excludeTools" (arr nil) q) "qwen.excludeTools"
    allowed ←
        string_list (get_or "environmentAllowlist" (as_value default_allowlist) q)
          "qwen.environmentAllowlist"
    raise_if (str_eq approval "yolo" && not sandbox) "qwen approvalMode yolo requires sandbox=true"
    ok (record {
      binary = binary;
      model = py.str_of (get_or "model" (str "qwen3.8-max") q);
      approval_mode = approval;
      sandbox = sandbox;
      persistent_retry = retry;
      max_wall_time = wall;
      max_tool_calls = calls;
      max_session_turns = turns;
      max_output_tokens = tokens;
      use_system_certificate_store = store;
      reasoning_effort = effort;
      exclude_tools = excluded;
      environment_allowlist = allowed;
    })

unfoldable pub load_scheduler : Fields → Result SchedulerConfig
load_scheduler s = do
  minutes ← positive_float (get_or "loopMinutes" (int (pos 30)) s) "scheduler.loopMinutes"
  lease ← positive (get_or "leaseSeconds" (int (pos 600)) s) "scheduler.leaseSeconds"
  beat ← positive (get_or "heartbeatSeconds" (int (pos 15)) s) "scheduler.heartbeatSeconds"
  silence ←
      positive (get_or "silenceTimeoutSeconds" (int (pos 600)) s) "scheduler.silenceTimeoutSeconds"
  grace ← positive (get_or "shutdownGraceSeconds" (int (pos 20)) s) "scheduler.shutdownGraceSeconds"
  raise_if (leb lease beat) "heartbeatSeconds must be lower than leaseSeconds"
  ok (record {
    loop_minutes = minutes;
    lease_seconds = lease;
    heartbeat_seconds = beat;
    silence_timeout_seconds = silence;
    shutdown_grace_seconds = grace;
  })

unfoldable pub load_recovery : Fields → Result RecoveryConfig
load_recovery r = do
  identical ←
      positive (get_or "maximumIdenticalFailures" (int (pos 3)) r)
        "recovery.maximumIdenticalFailures"
  base ← positive (get_or "retryBaseSeconds" (int (pos 30)) r) "recovery.retryBaseSeconds"
  most ← positive (get_or "retryMaximumSeconds" (int (pos 1800)) r) "recovery.retryMaximumSeconds"
  ok (record {
    maximum_identical_failures = identical;
    retry_base_seconds = base;
    retry_maximum_seconds = most;
  })

abbrev pub is_negative : ℤ → Bool
is_negative (pos n) = false
is_negative (negsuc n) = true

-- `review`, whose model is the coordinator's where none is given.
unfoldable pub load_review : Builtins → String → Fields → Result ReviewConfig
load_review py model rv = do
  enabled ← boolean (get_or "enabled" (bool true) rv) "review.enabled"
  wall ← duration py (get_or "maxWallTime" (str "20m") rv) "review.maxWallTime"
  calls ← non_negative_integer (get_or "maxToolCalls" (int (pos 1)) rv) "review.maxToolCalls"
  critical ← int_value py (get_or "maximumCriticalFindings" (int (pos 0)) rv)
  raise_if (not (calls == 1)) "review.maxToolCalls must be exactly 1 for the read-only reviewer"
  raise_if (is_negative critical) "review.maximumCriticalFindings cannot be negative"
  ok (record {
    enabled = enabled;
    model = py.str_of (get_or "model" (str model) rv);
    max_wall_time = wall;
    max_tool_calls = calls;
    maximum_critical_findings = pos_part critical;
  })

unfoldable pub load_governance : Fields → Result GovernanceConfig
load_governance gov = do
  paths ←
      found (list_of_texts (get_or "protectedPaths" (as_value default_protected_paths) gov))
        "governance.protectedPaths must be a list of paths"
  ok (record { protected_paths = paths })

abbrev pub is_empty : List String → Bool
is_empty [] = true
is_empty (s ∷ ss) = false

-- `qualityGates[index]`
abbrev label : ℕ → String
label index = "qualityGates[" +s decimal index +s "]"

unfoldable pub load_gate : Builtins → ℕ → Json → Result GateConfig
load_gate py index item = do
  gate ← mapping item (label index)
  command ←
      found (list_of_texts (get "command" gate))
        (label index +s ".command must be a non-empty argv list")
  raise_if (is_empty command) (label index +s ".command must be a non-empty argv list")
  timeout ←
      positive (get_or "timeoutSeconds" (int (pos 900)) gate) (label index +s ".timeoutSeconds")
  ok (record {
    name = py.str_of (get_or "name" (str ("gate-" +s decimal (index + 1))) gate);
    command = command;
    timeout_seconds = timeout;
  })

-- The loop over `gates_raw`, from an index on.
unfoldable pub load_gates : Builtins → ℕ → Items → Result (List GateConfig)
load_gates py index nil = ok []
load_gates py index (cons item items) = do
  gate ← load_gate py index item
  gates ← load_gates py (index + 1) items
  ok (gate ∷ gates)
