-- ===== src/Alerts/QuietHours.antt =====
-- The quiet hours as an interval of the circle of 1440 minutes.
use limit_halo.Prelude.{ℕ, ◌+◌, ◌-◌, ◌%◌, ◌≡◌, ◌<◌, ltb, arith}
use limit_halo.Prelude.Result.{ok}
use limit_halo.Alerts.{in_quiet_hours}

-- Of three minutes of a day, the first is quiet when it is fewer minutes after the start than the
-- end is, around the clock; so an empty interval is never quiet and one may pass midnight.
pub in_quiet_hours_circular :
    (minutes start end : ℕ)
    → minutes < 1440
    → start < 1440
    → end < 1440
    → in_quiet_hours minutes start end
      ≡ ok (ltb ((minutes + 1440 - start) % 1440) ((end + 1440 - start) % 1440))
unfolding in_quiet_hours
in_quiet_hours_circular minutes start end m s e = ground arith
