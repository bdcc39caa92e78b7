-- ===== src/Examples/Codex.antt =====
-- src/limit_halo/codex_protocol.py on a concrete answer of the app server.
use limit_halo.Prelude.Decimal.{decimal}
use limit_halo.Prelude.{List, ℕ, String, some, none, ◌≡◌, Bool, false}
use limit_halo.Prelude.Int.{pos}
use limit_halo.Prelude.{◌∷◌, [], refl}
use limit_halo.Prelude.Result.{ok}
use limit_halo.Model.Metric.{Metric, ready, make_metric}
use limit_halo.Model.Store.{new_store, update_codex}
use limit_halo.Codex.{
  select_bucket, sorted_windows, secondary_window, rejected, window_reset, used_number,
  window_duration, strict_window, windows_of, normalize_snapshot, top_metrics, merged_buckets,
  as_object, normalize_rate_limits,
}
use limit_halo.Codex.Accepted.{IsSnapshot, normalize_rate_limits_accepted}
use limit_halo.Json.{get?, Value, int, float, str, obj, empty, entry, finite}

abbrev window : Value → Value → Value
window duration used = obj (
    entry "windowDurationMins" duration
      (entry "usedPercent" used (entry "resetsAt" (int (pos 5000)) empty)))

abbrev integral : Value
integral = obj (
    entry "rateLimits"
      (obj (
        entry "limitId" (str "codex") (
          entry "primary" (window (int (pos 10_080)) (float (finite false 24 1)))
            (entry "secondary" (window (int (pos 300)) (int (pos 40))) empty))))
      empty)

abbrev metric : String → ℕ → ℕ → Metric
metric key mins used = record {
  key = key;
  provider = "codex";
  window_duration_mins = mins;
  used_percent = some used;
  resets_at = some (pos 5000);
  state = ready;
  observed_at = 1_000_000;
  retry_after_seconds = none;
  error_code = none;
}

abbrev two : List Metric
two = metric "codex_300" 300 40 ∷ metric "codex_10080" 10_080 12 ∷ []

normalized : normalize_rate_limits integral 1_000_000 ≡ ok two
unfolding normalize_rate_limits as_object get? merged_buckets top_metrics normalize_snapshot
    windows_of strict_window window_duration used_number window_reset rejected make_metric
    secondary_window sorted_windows select_bucket decimal
normalized = refl

normalize_rate_limits_accepted_example :
    IsSnapshot 1_000_000 two
    × ((b : Bool) × ((update_codex (new_store 0) two (int (pos 1))).0 ≡ ok b))
normalize_rate_limits_accepted_example =
    normalize_rate_limits_accepted integral 1_000_000 two (new_store 0) 1 normalized
