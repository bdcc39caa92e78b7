-- ===== src/Diagnostics.antt =====
-- src/limit_halo/diagnostics.py: the coarse buckets of the safe diagnostics. Times are in
-- microseconds.
pub mod Buckets
use limit_halo.Prelude.{
  ℕ, ◌+◌, ◌*◌, ◌-◌, max, String, Bool, ◌&&◌, not, Option, none, some, List, [], ◌∷◌, str_eq, ◌==◌,
  if◌then◌else◌, leb, ltb, any, mem,
}
use limit_halo.Prelude.Int.{pos}
use limit_halo.Json.{Value, int}
use limit_halo.Model.Metric.{
  Metric, ProviderState, ready, refreshing, stale, offline, authorization_required, provider_error,
  disabled, unavailable, second,
}
use limit_halo.Config.{AppConfig, claude_enabled}

abbrev pub allowed_error_codes : List String
allowed_error_codes =
    "none" ∷ "codex_unavailable" ∷ "broker_failure" ∷ "auth_locked" ∷ "credential_missing"
    ∷ "credential_unsupported" ∷ "schema_mismatch" ∷ "security_policy" ∷ "deadline" ∷ "internal"
    ∷ "lock_contended" ∷ "credential_changed" ∷ "credential_malformed" ∷ "bad_request"
    ∷ "transport_timeout" ∷ "transport_name_resolution" ∷ "transport_cannot_connect"
    ∷ "transport_secure_failure" ∷ "transport_option_failure" ∷ "transport_http_429"
    ∷ "transport_http_5xx" ∷ "transport_other" ∷ []

abbrev pub distance : ℕ → ℕ → ℕ
distance a b = (a - b) + (b - a)

-- `min` with a key: the first of the nearest.
nearest : ℕ → ℕ → List ℕ → ℕ
nearest dpi best [] = best
nearest dpi best (c ∷ cs) =
    nearest dpi (if ltb (distance c dpi) (distance best dpi) then c else best) cs

unfoldable pub dpi_bucket : Value → ℕ
unfolding nearest
dpi_bucket (int (pos dpi)) = if dpi == 0 then 96 else nearest dpi 96 (120 ∷ 144 ∷ 192 ∷ [])
dpi_bucket _ = 96

unfoldable pub latest : List Metric → ℕ
latest [] = 0
latest (m ∷ ms) = max m.observed_at (latest ms)

unfoldable pub age_name : ℕ → String
age_name age =
    if ltb age (60 * second)
    then "under_1m"
    else if ltb age (300 * second)
    then "1_to_5m"
    else if ltb age (900 * second)
    then "5_to_15m"
    else if ltb age (3600 * second)
    then "15_to_60m"
    else "over_1h"

unfoldable pub age_bucket : List Metric → ℕ → String
unfolding latest age_name
age_bucket [] now = "none"
age_bucket (m ∷ ms) now = age_name (now - latest (m ∷ ms))

larger : Option ℕ → Option ℕ → Option ℕ
larger none b = b
larger (some a) none = some a
larger (some a) (some b) = some (max a b)

unfoldable pub longest_retry : List Metric → Option ℕ
unfolding larger
longest_retry [] = none
longest_retry (m ∷ ms) = larger m.retry_after_seconds (longest_retry ms)

retry_name : Option ℕ → String
retry_name none = "none"
retry_name (some retry) =
    if leb retry 60
    then "under_1m"
    else if leb retry 300
    then "1_to_5m"
    else if leb retry 900
    then "5_to_15m"
    else "over_15m"

unfoldable pub retry_bucket : List Metric → String
unfolding longest_retry retry_name
retry_bucket metrics = retry_name (longest_retry metrics)

-- `ProviderState.value`
unfoldable pub state_name : ProviderState → String
state_name ready = "ready"
state_name refreshing = "refreshing"
state_name stale = "stale"
state_name offline = "offline"
state_name authorization_required = "authorization_required"
state_name provider_error = "provider_error"
state_name disabled = "claude_disabled"
state_name unavailable = "unavailable"

abbrev pub same_state : ProviderState → ProviderState → Bool
same_state a b = str_eq (state_name a) (state_name b)

abbrev pub has_state : ProviderState → List Metric → Bool
has_state state metrics = any (λ (m : Metric). same_state m.state state) metrics

abbrev pub state_order : List ProviderState
state_order =
    authorization_required ∷ provider_error ∷ offline ∷ stale ∷ refreshing ∷ unavailable ∷ disabled
    ∷ ready ∷ []

-- `next(state for state in order if state in states)`: every state is in the order.
unfoldable pub first_state : List ProviderState → List Metric → Option ProviderState
unfolding state_name
first_state [] metrics = none
first_state (s ∷ ss) metrics =
    let rest = first_state ss metrics in if has_state s metrics then some s else rest

unfoldable pub provider_state_of : List Metric → String → AppConfig → Option ProviderState
unfolding first_state
provider_state_of metrics provider config =
    if str_eq provider "claude" && not (claude_enabled config)
    then some disabled
    else elim metrics [ [] ↦ some unavailable | m ∷ ms ↦ first_state state_order (m ∷ ms) ]

-- The error codes that are shown, a set in the source.
unfoldable pub shown_errors : List Metric → List String
shown_errors [] = []
shown_errors (m ∷ ms) =
    let rest = shown_errors ms in
    elim m.error_code [
      | none ↦ rest
      | some code ↦
          if mem code allowed_error_codes && not (mem code rest) then code ∷ rest else rest
    ]
