-- ===== src/Alerts.antt =====
-- src/limit_halo/notifications.py: the decision which low quotas to report. The set of the reports
-- already made is a list without repetition.
pub mod QuietHours
pub mod Dedupe
use limit_halo.Prelude.{
  ℕ, ◌+◌, ◌*◌, ◌-◌, String, Bool, true, false, ◌||◌, ◌&&◌, not, Option, none, some, List, [], ◌∷◌,
  str_eq, ◌==◌, if◌then◌else◌, leb, ltb, all,
}
use limit_halo.Prelude.Int.{ℤ, pos, eqb_ℤ}
use limit_halo.Prelude.Result.{Result, ok, err, value_error}
use limit_halo.Model.Metric.{Metric, is_ready}
use limit_halo.Config.{AppConfig}

-- The arguments are minutes of a day; the source also refuses values that are not integers.
unfoldable pub in_quiet_hours : ℕ → ℕ → ℕ → Result Bool
in_quiet_hours local_minutes start end =
    if not (leb local_minutes 1439 && leb start 1439 && leb end 1439)
    then err (value_error "quiet-hour value out of range")
    else if start == end
    then ok false
    else if ltb start end
    then ok (leb start local_minutes && ltb local_minutes end)
    else ok (leb start local_minutes || ltb local_minutes end)

pub record QuotaNotification : Type 0 where
  pub provider : String
  pub window_key : String
  pub window_duration_mins : ℕ
  pub remaining_percent : ℕ
  pub resets_at : ℤ

-- An element of `_emitted`.
pub record Emitted : Type 0 where
  pub provider : String
  pub key : String
  pub threshold : ℕ
  pub resets_at : ℤ

unfoldable pub same_series : Emitted → Emitted → Bool
same_series a b = str_eq a.provider b.provider && str_eq a.key b.key && a.threshold == b.threshold

unfoldable pub same_emitted : Emitted → Emitted → Bool
unfolding same_series
same_emitted a b = same_series a b && eqb_ℤ a.resets_at b.resets_at

unfoldable pub was_emitted : Emitted → List Emitted → Bool
unfolding same_emitted
was_emitted e [] = false
was_emitted e (d ∷ ds) = same_emitted d e || was_emitted e ds

-- The comprehension that forgets the reports of one series.
unfoldable pub forget_series : Emitted → List Emitted → List Emitted
unfolding same_series
forget_series e [] = []
forget_series e (d ∷ ds) =
    let rest = forget_series e ds in if same_series d e then rest else d ∷ rest

abbrev pub emitted_of : ℕ → Metric → ℤ → Emitted
emitted_of threshold m resets_at = record {
  provider = m.provider;
  key = m.key;
  threshold = threshold;
  resets_at = resets_at;
}

abbrev notification_of : Metric → ℕ → ℤ → QuotaNotification
notification_of m used resets_at = record {
  provider = m.provider;
  window_key = m.key;
  window_duration_mins = m.window_duration_mins;
  remaining_percent = 100 - used;
  resets_at = resets_at;
}

abbrev pub Decision : Type 0
Decision = List QuotaNotification × List Emitted

-- A measured window: forgotten when it is above the threshold, else reported once for its reset.
unfoldable pub decide_measured : ℕ → Metric → ℕ → ℤ → List Emitted → Decision
unfolding was_emitted forget_series
decide_measured threshold m used resets_at emitted =
    if ltb threshold (100 - used)
    then ([], forget_series (emitted_of threshold m resets_at) emitted)
    else if was_emitted (emitted_of threshold m resets_at) emitted
    then ([], emitted)
    else (notification_of m used resets_at ∷ [], emitted_of threshold m resets_at ∷ emitted)

decide_parts : ℕ → Metric → Option ℕ → Option ℤ → List Emitted → Decision
unfolding decide_measured
decide_parts threshold m (some used) (some resets_at) emitted =
    if is_ready m.state then decide_measured threshold m used resets_at emitted else ([], emitted)
decide_parts threshold m _ _ emitted = ([], emitted)

-- The body of the loop over the metrics.
unfoldable pub decide : ℕ → Metric → List Emitted → Decision
unfolding decide_parts
decide threshold m emitted = decide_parts threshold m m.used_percent m.resets_at emitted

abbrev add_later : List QuotaNotification → Decision → Decision
add_later [] (later, emitted) = (later, emitted)
add_later (n ∷ ns) (later, emitted) = (n ∷ later, emitted)

unfoldable pub decide_all : ℕ → List Metric → List Emitted → Decision
decide_all threshold [] emitted = ([], emitted)
decide_all threshold (m ∷ ms) emitted =
    let first = decide threshold m emitted in add_later first.0 (decide_all threshold ms first.1)

abbrev is_quiet : AppConfig → ℕ → Result Bool
is_quiet config minutes =
    if config.quiet_hours_enabled
    then in_quiet_hours minutes config.quiet_start_minutes config.quiet_end_minutes
    else ok false

evaluate_unless :
    Result Bool → ℕ → List Metric → List Emitted → Result (List QuotaNotification) × List Emitted
unfolding decide_all
evaluate_unless (err e) threshold metrics emitted = (err e, emitted)
evaluate_unless (ok true) threshold metrics emitted = (ok [], emitted)
evaluate_unless (ok false) threshold metrics emitted =
    (ok (decide_all threshold metrics emitted).0, (decide_all threshold metrics emitted).1)

-- `NotificationDecider.evaluate`, at a minute of the local day.
unfoldable pub evaluate :
    AppConfig → List Metric → ℕ → List Emitted → Result (List QuotaNotification) × List Emitted
unfolding evaluate_unless
evaluate config metrics minutes emitted =
    if not config.alerts_enabled
    then (ok [], emitted)
    else evaluate_unless (is_quiet config minutes) config.alert_threshold_percent metrics emitted
