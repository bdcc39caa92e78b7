-- ===== src/Examples/Alerts.antt =====
-- src/limit_halo/notifications.py on concrete settings.
use limit_halo.Prelude.{◌≡◌, ◌+◌, ◌-◌, ◌%◌, refl, true, none, some, [], ◌∷◌, ltb, arith}
use limit_halo.Prelude.Result.{ok}
use limit_halo.Prelude.Int.{pos}
use limit_halo.Config.{AppConfig, safe_defaults}
use limit_halo.Alerts.{decide, QuotaNotification, in_quiet_hours, evaluate}
use limit_halo.Alerts.QuietHours.{in_quiet_hours_circular}
use limit_halo.Alerts.Dedupe.{evaluate_again}
use limit_halo.Model.Metric.{Metric, ready}

in_quiet_hours_circular_example :
    in_quiet_hours 30 1320 480 ≡ ok (ltb ((30 + 1440 - 1320) % 1440) ((480 + 1440 - 1320) % 1440))
in_quiet_hours_circular_example =
    in_quiet_hours_circular 30 1320 480 (omega arith) (omega arith) (omega arith)

abbrev alerting : AppConfig
alerting = record safe_defaults { alerts_enabled = true; quiet_hours_enabled = true }

abbrev low : Metric
low = record {
  key = "claude_300";
  provider = "claude";
  window_duration_mins = 300;
  used_percent = some 95;
  resets_at = some (pos 2000);
  state = ready;
  observed_at = 1_000_000_000;
  retry_after_seconds = none;
  error_code = none;
}

abbrev reported : QuotaNotification
reported = record {
  provider = "claude";
  window_key = "claude_300";
  window_duration_mins = 300;
  remaining_percent = 5;
  resets_at = pos 2000;
}

evaluate_again_example :
    (evaluate alerting (low ∷ []) 700 (evaluate alerting (low ∷ []) 600 []).1).0 ≡ ok []
unfolding evaluate in_quiet_hours decide
evaluate_again_example =
    evaluate_again alerting (low ∷ []) 600 700 [] reported [] (tt, tt) refl (omega arith)
      (omega arith) (omega arith)
