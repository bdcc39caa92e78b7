-- ===== src/Claude/Broker.antt =====
-- src/limit_halo/claude_protocol.py, `parse_broker_line`. The JSON decoder with its hook that
-- rejects duplicate keys is the parameter `loads`: `none` stands for any decoding error.
pub mod Accepted
pub mod Answers
use limit_halo.Prelude.{
  ℕ, ◌+◌, ◌*◌, ◌-◌, ◌/◌, String, Bool, true, false, ◌||◌, ◌&&◌, not, Option, none, some, List, [],
  ◌∷◌, str_eq, ◌==◌, if◌then◌else◌, leb, ltb, all, mem,
}
use Prim.Native.String.{◌++◌ as str_append}
use limit_halo.Prelude.Int.{pos}
use limit_halo.Prelude.Result.{Result, ok, err, broker_failure, ◌>>=◌, ◌>>◌, raise_if}
use limit_halo.Dict.{Dict, lookup}
use limit_halo.Json.{Value, Fields, null, int, str, get, is_str, is_null}
use limit_halo.Model.Metric.{
  ProviderState, ready, unavailable, provider_error, offline, authorization_required, Metric,
  make_metric, second,
}
use limit_halo.Claude.Frame.{
  frame_body, exact_keys, strict_int, need_object, in_set, check_credential,
}

abbrev pub broker_protocol : String
broker_protocol = "ai-usage-claude-broker/1"

-- `ERROR_STATUSES`, each with its `casefold()`.
abbrev pub error_codes : Dict String
error_codes =
    ("BAD_REQUEST", "bad_request")
    ∷ ("SECURITY_POLICY", "security_policy")
    ∷ ("CREDENTIAL_MISSING", "credential_missing")
    ∷ ("CREDENTIAL_UNSUPPORTED", "credential_unsupported")
    ∷ ("CREDENTIAL_MALFORMED", "credential_malformed")
    ∷ ("CREDENTIAL_CHANGED", "credential_changed")
    ∷ ("LOCK_CONTENDED", "lock_contended")
    ∷ ("AUTH_LOCKED", "auth_locked")
    ∷ ("TRANSIENT", "transient")
    ∷ ("SCHEMA_MISMATCH", "schema_mismatch")
    ∷ ("DEADLINE", "deadline")
    ∷ ("INTERNAL", "internal")
    ∷ []

abbrev pub transport_endpoints : List String
transport_endpoints = "refresh" ∷ "usage" ∷ []

abbrev pub transport_phases : List String
transport_phases = "session_options" ∷ "connect" ∷ "send" ∷ "receive" ∷ "headers" ∷ "body" ∷ []

abbrev pub transport_classes : List String
transport_classes =
    "timeout" ∷ "name_resolution" ∷ "cannot_connect" ∷ "secure_failure" ∷ "option_failure"
    ∷ "http_429" ∷ "http_5xx" ∷ "other" ∷ []

abbrev names : Dict String → List String
names [] = []
names ((k, v) ∷ d) = k ∷ names d

pub record BrokerResult : Type 0 where
  pub sequence : ℕ
  pub status : String
  pub observed_at : ℕ
  pub metrics : List Metric
  pub provider_state : ProviderState
  pub redacted_error_code : Option String

abbrev pub max_safe : ℕ
max_safe = 9_007_199_254_740_991

abbrev payload_keys : List String
payload_keys =
    "protocol" ∷ "requestId" ∷ "acquisitionSequence" ∷ "status" ∷ "acquiredAtUnixSeconds"
    ∷ "durationMs" ∷ "credentialVersion" ∷ "transportDiagnostic" ∷ "metrics" ∷ []

-- The fields that every envelope has: the sequence and the time of the observation in seconds.
unfoldable pub check_envelope : Fields → String → ℕ → ℕ → Result (ℕ × ℕ)
check_envelope payload request_id acquisition_sequence received_at = do
  exact_keys payload payload_keys
  raise_if
      (not (is_str broker_protocol (get "protocol" payload))
        || not (is_str request_id (get "requestId" payload)))
      (broker_failure "broker correlation mismatch")
  sequence ← strict_int (get "acquisitionSequence" payload) 1 max_safe
  raise_if (not (sequence == acquisition_sequence)) (broker_failure "broker sequence mismatch")
  observed ← strict_int (get "acquiredAtUnixSeconds" payload) 1 max_safe
  duration ← strict_int (get "durationMs" payload) 0 55_000
  raise_if (not (leb observed (received_at / second + 300)))
      (broker_failure "broker time is in the future")
  check_credential (get "credentialVersion" payload)
  ok (sequence, observed)

-- The status: "OK", or one of the known errors.
unfoldable pub check_status : Value → Result String
unfolding in_set
check_status (str s) =
    if str_eq s "OK" || mem s (names error_codes)
    then ok s
    else err (broker_failure "unknown broker status")
check_status value = do
  known ← in_set value (names error_codes)
  err (broker_failure "unknown broker status")

abbrev text_of : Value → String
text_of (str s) = s
text_of _ = ""

-- The three membership tests, each made only if those before it held.
abbrev all_in : List (Value × List String) → Result Bool
all_in [] = ok true
all_in ((value, set) ∷ rest) =
    let others = all_in rest in in_set value set >>= λ b. if b then others else ok false

unfoldable pub check_transport : Fields → Result String
unfolding in_set
check_transport diagnostic = do
  exact_keys diagnostic ("endpoint" ∷ "phase" ∷ "class" ∷ [])
  known ← all_in (
      (get "endpoint" diagnostic, transport_endpoints)
      ∷ (get "phase" diagnostic, transport_phases)
      ∷ (get "class" diagnostic, transport_classes)
      ∷ [])
  raise_if (not known) (broker_failure "invalid transport diagnostic")
  ok (str_append "transport_" (text_of (get "class" diagnostic)))

-- A transport diagnostic comes with the status "TRANSIENT" and with no other.
unfoldable pub check_diagnostic : String → Value → Result (Option String)
check_diagnostic status diagnostic =
    if str_eq status "TRANSIENT"
    then (do
      fs ← need_object "missing transport diagnostic" diagnostic
      code ← check_transport fs
      ok (some code))
    else if is_null diagnostic
    then ok none
    else err (broker_failure "unexpected transport diagnostic")

unfoldable pub failure_state : String → ProviderState
failure_state status =
    if mem status (
      "AUTH_LOCKED" ∷ "CREDENTIAL_MISSING" ∷ "CREDENTIAL_UNSUPPORTED" ∷ "CREDENTIAL_MALFORMED" ∷ [])
    then authorization_required
    else if mem status ("TRANSIENT" ∷ "CREDENTIAL_CHANGED" ∷ "LOCK_CONTENDED" ∷ "DEADLINE" ∷ [])
    then offline
    else provider_error

-- `diagnostic_code or status.casefold()`
unfoldable pub failure_code : String → Option String → Option String
unfolding lookup
failure_code status (some code) = some code
failure_code status none = lookup status error_codes

-- `int(math.floor((100.0 - remaining_micros / 1_000_000.0) + 0.5))`: the distance of the exact value
-- from an integer is 0 or at least a millionth, far more than the error of the doubles.
unfoldable pub used_percent : ℕ → ℕ
used_percent remaining_micros = (100_500_000 - remaining_micros) / 1_000_000

abbrev pub window_minutes : String → ℕ
window_minutes key = if str_eq key "claude_300" then 300 else 10_080

-- `resetUnixSeconds`: only the session window may lack it.
unfoldable pub check_reset_value : String → ℕ → Value → Result Value
unfolding strict_int
check_reset_value key observed value =
    if is_null value
    then (if str_eq key "claude_300"
        then ok null
        else err (broker_failure "metric reset unavailable"))
    else do
      reset ← strict_int value 1 max_safe
      raise_if (not (ltb observed reset && leb reset (observed + window_minutes key * 60 + 86_400)))
          (broker_failure "metric reset rejected")
      ok (int (pos reset))

-- One window of a successful envelope.
unfoldable pub parse_metric : String → ℕ → Value → Result Metric
parse_metric key observed null =
    make_metric key "claude" (int (pos (window_minutes key))) null null unavailable
      (observed * second)
parse_metric key observed value = do
  fs ← need_object "metric malformed" value
  exact_keys fs ("remainingMicros" ∷ "resetUnixSeconds" ∷ [])
  micros ← strict_int (get "remainingMicros" fs) 0 100_000_000
  reset ← check_reset_value key observed (get "resetUnixSeconds" fs)
  make_metric key "claude" (int (pos (window_minutes key))) (int (pos (used_percent micros))) reset
      ready (observed * second)

unfoldable pub parse_metrics : Fields → ℕ → Result (List Metric)
parse_metrics values observed = do
  raise_if (is_null (get "claude_session" values))
      (broker_failure "broker baseline metric unavailable")
  session ← parse_metric "claude_300" observed (get "claude_session" values)
  weekly ← parse_metric "claude_10080" observed (get "claude_weekly_all" values)
  fable ← parse_metric "claude_fable_10080" observed (get "claude_fable_weekly" values)
  ok (session ∷ weekly ∷ fable ∷ [])

abbrev metric_names : List String
metric_names = "claude_session" ∷ "claude_weekly_all" ∷ "claude_fable_weekly" ∷ []

abbrev all_null : Fields → Bool
all_null values = all (λ name. is_null (get name values)) metric_names

-- What follows the envelope: a failure carries no values, a success carries the metrics.
unfoldable pub finish : ℕ → ℕ → String → Option String → Fields → Result BrokerResult
finish sequence observed status code values =
    if not (str_eq status "OK")
    then (if not (all_null values)
        then err (broker_failure "failure envelope carries values")
        else ok (record {
          sequence = sequence;
          status = status;
          observed_at = observed;
          metrics = [];
          provider_state = failure_state status;
          redacted_error_code = failure_code status code;
        }))
    else do
      parsed ← parse_metrics values observed
      ok (record {
        sequence = sequence;
        status = status;
        observed_at = observed;
        metrics = parsed;
        provider_state = ready;
        redacted_error_code = none;
      })

-- The status, the diagnostic and the metrics, once the envelope is checked.
unfoldable pub parse_outcome : Fields → ℕ × ℕ → Result BrokerResult
parse_outcome payload envelope = do
  status ← check_status (get "status" payload)
  code ← check_diagnostic status (get "transportDiagnostic" payload)
  values ← need_object "metrics malformed" (get "metrics" payload)
  exact_keys values metric_names
  finish envelope.0 envelope.1 status code values

unfoldable pub parse_payload : Value → String → ℕ → ℕ → Result BrokerResult
parse_payload decoded request_id acquisition_sequence received_at = do
  payload ← need_object "broker result is not an object" decoded
  envelope ← check_envelope payload request_id acquisition_sequence received_at
  parse_outcome payload envelope

abbrev pub decoded_or : Option Value → Result Value
decoded_or none = err (broker_failure "invalid broker JSON")
decoded_or (some value) = ok value

module _ (loads : List ℕ → Option Value) where
  unfoldable pub parse_broker_line : List ℕ → String → ℕ → ℕ → Result BrokerResult
  parse_broker_line line request_id acquisition_sequence received_at = do
    body ← frame_body line request_id
    decoded ← decoded_or (loads body)
    parse_payload decoded request_id acquisition_sequence received_at
