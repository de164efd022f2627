-- ===== src/Http.antt =====
-- src/qas/httpd.py: who may read the status of the supervisor over HTTP, and what is answered. The status is
-- what `Supervisor.status` returns, with its texts as Python's formats spell them; the sockets are outside.
pub mod Laws
use qwen_autonomous_supervis.Prelude.{
  ℕ, ◌+◌, String, str_eq, Bool, true, false, Option, none, some, List, [], ◌∷◌, ◌++◌, ◌&&◌, not,
  map, every, ltb, if◌then◌else◌,
}
use qwen_autonomous_supervis.Prelude.Text.{◌+s◌, codes, decimal}
use qwen_autonomous_supervis.Errors.{Result, ok, err, value_error, type_error, ◌>>=◌}

-- The parts of the status that the handler reads. `run_counts` is sorted by its keys.
pub record Status : Type 0 where
  pub healthy : Bool
  pub json : String
  pub run_counts : List (String × ℕ)
  pub quarantined_failures : String
  pub uptime_seconds : String
  pub model_calls : String
  pub total_tokens : String
  pub estimated_cost : String
  pub ticks_successful : String
  pub ticks_failed : String
  pub recovered_runs : String

pub record Response : Type 0 where
  pub code : ℕ
  pub content_type : String
  pub body : String

-- `lower` is `str.lower`, and `is_loopback` the property of a parsed address, None where it is no address.
abbrev or_false : Option Bool → Bool
or_false none = false
or_false (some b) = b

abbrev pub loopback : (String → String) → (String → Option Bool) → String → Bool
loopback lower is_loopback host =
    if str_eq (lower host) "localhost" then true else or_false (is_loopback host)

-- The token of the environment, if it is set and not empty.
abbrev pub token_of : Option String → Option String
token_of none = none
token_of (some s) = if str_eq s "" then none else some s

-- `self.headers.get("Authorization", "")`
abbrev pub header_or_empty : Option String → String
header_or_empty none = ""
header_or_empty (some s) = s

abbrev pub is_ascii : String → Bool
is_ascii s = every (λ c. ltb c 128) (codes s)

-- `hmac.compare_digest` of two texts, which must be ASCII.
abbrev pub compare_digest : String → String → Result Bool
compare_digest a b =
    if is_ascii a && is_ascii b
    then ok (str_eq a b)
    else err (type_error "comparing strings with non-ASCII characters is not supported")

-- `_authorized`
abbrev pub authorized : Option String → Option String → Result Bool
authorized none header = ok true
authorized (some token) header = compare_digest (header_or_empty header) ("Bearer " +s token)

abbrev json_bool : Bool → String
json_bool true = "true"
json_bool false = "false"

-- `"\n".join(lines) + "\n"`
abbrev lines_text : List String → String
lines_text [] = ""
lines_text (line ∷ lines) = line +s "\n" +s lines_text lines

abbrev run_line : String × ℕ → String
run_line (key, value) = "qas_runs_total{status=\"" +s key +s "\"} " +s decimal value

unfoldable pub metrics : Status → String
metrics s = lines_text (
    "# TYPE qas_runs_total gauge" ∷ map run_line s.run_counts
    ++ ("# TYPE qas_quarantined_failures gauge"
        ∷ ("qas_quarantined_failures " +s s.quarantined_failures)
        ∷ "# TYPE qas_healthy gauge"
        ∷ ("qas_healthy " +s (if s.healthy then "1" else "0"))
        ∷ "# TYPE qas_uptime_seconds gauge"
        ∷ ("qas_uptime_seconds " +s s.uptime_seconds)
        ∷ "# TYPE qas_model_calls_total counter"
        ∷ ("qas_model_calls_total " +s s.model_calls)
        ∷ "# TYPE qas_tokens_total counter"
        ∷ ("qas_tokens_total " +s s.total_tokens)
        ∷ "# TYPE qas_estimated_cost gauge"
        ∷ ("qas_estimated_cost " +s s.estimated_cost)
        ∷ "# TYPE qas_ticks_successful_total counter"
        ∷ ("qas_ticks_successful_total " +s s.ticks_successful)
        ∷ "# TYPE qas_ticks_failed_total counter"
        ∷ ("qas_ticks_failed_total " +s s.ticks_failed)
        ∷ "# TYPE qas_recovered_runs_total counter"
        ∷ ("qas_recovered_runs_total " +s s.recovered_runs)
        ∷ []))

-- A request: its path and its `Authorization` header.
pub record Request : Type 0 where
  pub path : String
  pub authorization : Option String

abbrev pub unauthorized : Response
unauthorized = record {
  code = 401;
  content_type = "application/json";
  body = "{\"error\":\"unauthorized\"}";
}

-- What an authorized request is answered.
unfoldable pub answer_path : Status → String → Response
answer_path s path =
    if str_eq path "/healthz"
    then record {
      code = if s.healthy then 200 else 503;
      content_type = "application/json";
      body = "{\"healthy\": " +s json_bool s.healthy +s "}";
    }
    else if str_eq path "/status"
    then record { code = 200; content_type = "application/json"; body = s.json }
    else if str_eq path "/metrics"
    then record { code = 200; content_type = "text/plain; version=0.0.4"; body = metrics s }
    else record {
      code = 404;
      content_type = "application/json";
      body = "{\"error\":\"not_found\"}";
    }

-- `do_GET`. An exception of it ends the request without an answer.
unfoldable pub do_get : Option String → Status → Request → Result Response
do_get token s r = do
  allowed ← authorized token r.authorization
  ok (if allowed then answer_path s r.path else unauthorized)

-- `serve`: the handler of requests, each with the status at its moment, or the refusal to start.
unfoldable pub serve :
    (String → String)
    → (String → Option Bool)
    → String
    → Option String
    → Result (Status → Request → Result Response)
serve lower is_loopback host environ = elim (token_of environ) [
  | none ↦
      if loopback lower is_loopback host
      then ok (do_get none)
      else err
          (value_error "QAS_OBSERVABILITY_TOKEN is required for a non-loopback observability host")
  | some token ↦ ok (do_get (some token))
]
