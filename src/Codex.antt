-- ===== src/Codex.antt =====
-- src/limit_halo/codex_protocol.py: the answers of the Codex app server, decoded from JSON.
pub mod Accepted
pub mod Session
pub mod Frame
pub mod Collector
use limit_halo.Prelude.{
  ℕ, ◌+◌, ◌*◌, ◌/◌, ◌%◌, ◌^◌, max, String, Bool, true, false, ◌||◌, ◌&&◌, not, Option, none, some,
  List, [], ◌∷◌, ◌==◌, if◌then◌else◌, leb, ltb, is_some,
}
use Prim.Native.String.{◌++◌ as str_append}
use limit_halo.Prelude.Decimal.{decimal}
use limit_halo.Prelude.Int.{pos, eqb_ℤ}
use limit_halo.Prelude.Result.{Result, ok, err, protocol_failure, Error, ◌>>=◌, ◌>>◌, raise_if}
use limit_halo.Json.{Value, Fields, null, bool, int, float, obj, get, get?, is_str, finite}
use limit_halo.Model.Metric.{Metric, make_metric, ready, second}

abbrev pub max_server_line : ℕ
max_server_line = 65_536

abbrev pub max_json_nesting : ℕ
max_json_nesting = 64

abbrev failure : String → Error
failure text = protocol_failure text

-- `name in value`
abbrev pub has_key : String → Fields → Bool
has_key name fs = is_some (get? name fs)

unfoldable pub as_object : String → Value → Result Fields
as_object problem (obj fs) = ok fs
as_object problem _ = err (failure problem)

-- `account_is_usable`
account_parts : Value → Value → Result Bool
account_parts (obj _) (bool requires) = ok true
account_parts null (bool requires) = ok (not requires)
account_parts _ (bool requires) = err (failure "account/read account shape rejected")
account_parts _ _ = err (failure "account/read requiresOpenaiAuth is not boolean")

unfoldable pub account_is_usable : Value → Result Bool
unfolding account_parts as_object
account_is_usable result = do
  fs ← as_object "account/read schema mismatch" result
  raise_if (not (has_key "account" fs && has_key "requiresOpenaiAuth" fs))
      (failure "account/read schema mismatch")
  account_parts (get "account" fs) (get "requiresOpenaiAuth" fs)

-- The number of a `usedPercent`: an integer, or a double without a fraction, from 0 to 100.
unfoldable pub used_number : Value → Result ℕ
used_number (int (pos n)) = if leb n 100 then ok n else err (failure "invalid usedPercent")
used_number (float (finite negative mantissa scale)) =
    if (not negative || mantissa == 0)
      && leb mantissa (100 * 2 ^ scale)
      && mantissa % 2 ^ scale == 0
    then ok (mantissa / 2 ^ scale)
    else err (failure "invalid usedPercent")
used_number _ = err (failure "invalid usedPercent")

unfoldable pub window_duration : Value → Result ℕ
window_duration (int (pos n)) =
    if leb 1 n && leb n 525_600 then ok n else err (failure "invalid window duration")
window_duration _ = err (failure "invalid window duration")

-- `observed_at` is in microseconds, the reset in seconds.
unfoldable pub window_reset : ℕ → ℕ → Value → Result ℕ
window_reset duration observed_at (int (pos reset)) =
    if ltb observed_at (reset * second)
      && leb (reset * second) (observed_at + max 86_400 (duration * 60 + 86_400) * second)
    then ok reset
    else err (failure "invalid resetsAt")
window_reset duration observed_at _ = err (failure "invalid resetsAt")

-- `except (OverflowError, TypeError, ValueError)` around the constructor.
unfoldable pub rejected : Result Metric → Result Metric
rejected (ok m) = ok m
rejected (err e) = err (failure "rate-limit window rejected")

-- `message.get("limitId") == "codex"` of a dictionary.
abbrev pub is_codex : Fields → Bool
is_codex fs = is_str "codex" (get "limitId" fs)

same_option {ℓ} : {A : Type ℓ} → (A → A → Bool) → Option A → Option A → Bool
same_option same none none = true
same_option same (some a) (some b) = same a b
same_option same _ _ = false

-- `_metric_values`
unfoldable pub same_values : Metric → Metric → Bool
unfolding same_option
same_values a b =
    a.window_duration_mins == b.window_duration_mins
    && same_option (λ x y. x == y) a.used_percent b.used_percent
    && same_option eqb_ℤ a.resets_at b.resets_at

unfoldable pub all_same_values : List Metric → List Metric → Bool
unfolding same_values
all_same_values [] [] = true
all_same_values (a ∷ as') (b ∷ bs) = same_values a b && all_same_values as' bs
all_same_values _ _ = false

unfoldable pub strict_window : Value → ℕ → Result Metric
strict_window window observed_at = do
  fs ← as_object "rate-limit window schema mismatch" window
  raise_if
      (not (has_key "windowDurationMins" fs && has_key "usedPercent" fs && has_key "resetsAt" fs))
      (failure "rate-limit window schema mismatch")
  duration ← window_duration (get "windowDurationMins" fs)
  used ← used_number (get "usedPercent" fs)
  reset ← window_reset duration observed_at (get "resetsAt" fs)
  rejected (
      make_metric (str_append "codex_" (decimal duration)) "codex" (int (pos duration))
        (int (pos used)) (int (pos reset)) ready observed_at)

-- The optional second window.
unfoldable pub secondary_window : Value → ℕ → Result (List Metric)
secondary_window null observed_at = ok []
secondary_window value observed_at = do m ← strict_window value observed_at; ok (m ∷ [])

-- One window, or two windows sorted by their different durations.
unfoldable pub sorted_windows : Metric → List Metric → Result (List Metric)
sorted_windows first [] = ok (first ∷ [])
sorted_windows first (second ∷ _) =
    if first.window_duration_mins == second.window_duration_mins
    then err (failure "duplicate Codex window duration")
    else if ltb first.window_duration_mins second.window_duration_mins
    then ok (first ∷ second ∷ [])
    else ok (second ∷ first ∷ [])

-- The windows of a snapshot of the Codex bucket.
unfoldable pub windows_of : Fields → ℕ → Result (List Metric)
windows_of fs observed_at = do
  first ← strict_window (get "primary" fs) observed_at
  others ← secondary_window (get "secondary" fs) observed_at
  sorted_windows first others

unfoldable pub normalize_snapshot : Value → ℕ → Result (List Metric)
normalize_snapshot snapshot observed_at = do
  fs ← as_object "Codex snapshot malformed" snapshot
  raise_if (not (has_key "limitId" fs && has_key "primary" fs)) (failure "Codex snapshot malformed")
  raise_if (not (is_codex fs)) (failure "exact codex bucket unavailable")
  windows_of fs observed_at

-- The snapshot at the top, if it is one of the Codex bucket.
unfoldable pub top_metrics : Value → ℕ → Result (Option (List Metric))
top_metrics (obj fs) now =
    if is_codex fs then (do ms ← normalize_snapshot (obj fs) now; ok (some ms)) else ok none
top_metrics _ now = ok none

agree : Option (List Metric) → List Metric → Result (List Metric)
agree none selected = ok selected
agree (some top) selected =
    if all_same_values selected top
    then ok selected
    else err (failure "conflicting Codex snapshots")

found_top : Option (List Metric) → Result (List Metric)
found_top none = err (failure "exact codex bucket unavailable")
found_top (some ms) = ok ms

-- The buckets by their identifier, and the agreement with the one at the top.
unfoldable pub select_bucket : Option Value → Option (List Metric) → ℕ → Result (List Metric)
unfolding agree found_top
select_bucket none top now = found_top top
select_bucket (some by_id) top now = do
  buckets ← as_object "exact codex bucket unavailable" by_id
  raise_if (not (has_key "codex" buckets)) (failure "exact codex bucket unavailable")
  selected ← normalize_snapshot (get "codex" buckets) now
  agree top selected

unfoldable pub merged_buckets : Fields → ℕ → Result (List Metric)
merged_buckets fs now = do
  top ← top_metrics (get "rateLimits" fs) now
  select_bucket (get? "rateLimitsByLimitId" fs) top now

unfoldable pub normalize_rate_limits : Value → ℕ → Result (List Metric)
normalize_rate_limits result now = do
  fs ← as_object "rate-limit result schema mismatch" result
  raise_if (not (has_key "rateLimits" fs)) (failure "rateLimits snapshot missing")
  merged_buckets fs now
