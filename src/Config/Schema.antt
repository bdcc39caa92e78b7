-- ===== src/Config/Schema.antt =====
-- src/limit_halo/config.py: the JSON object of the settings, and the strict decoder of the current
-- schema and of the older ones. `json.dumps` and `json.loads` of an overlay are a parameter.
use limit_halo.Prelude.{ℕ, String, Option, none, some, leb, length, if◌then◌else◌}
use limit_halo.Prelude.Int.{ℤ, pos}
use limit_halo.Prelude.Result.{Result, ok, err, value_error, ◌>>=◌}
use limit_halo.Json.{Value, Fields, null, bool, int, str, obj, empty, entry}
use limit_halo.Claude.Frame.{codes}
use limit_halo.Config.{AppConfig}
use limit_halo.Config.Decode.{format_minutes}
use limit_halo.Config.Extension.{Unicode, safe_unknown_value, max_config_bytes}
use limit_halo.Config.Overlay.{merge_unknown_overlay}

-- The canonical JSON text of an object, its keys sorted, and the value of a text; `none` for a text
-- that is no JSON.
pub record Codec : Type 0 where
  pub dumps : Fields → String
  pub loads : String → Option Value

-- The libraries that the settings rest on.
pub record Platform : Type 0 where
  pub unicode : Unicode
  pub codec : Codec

abbrev pub coordinate_value : Option ℤ → Value
coordinate_value none = null
coordinate_value (some n) = int n

-- `_format_minutes`, with its exception.
abbrev pub time_or_raise : Option String → Result String
time_or_raise none = err (value_error "invalid local time")
time_or_raise (some t) = ok t

abbrev pub format_or_raise : ℕ → Result String
format_or_raise m = time_or_raise (format_minutes m)

abbrev pub provider_fields : AppConfig → Fields
provider_fields c = entry "claude" (str c.claude_mode) (entry "codex" (str c.codex_mode) empty)

-- The quiet hours, with the texts of their start and end.
abbrev pub quiet_fields : AppConfig → String → String → Fields
quiet_fields c start stop =
    entry "enabled" (bool c.quiet_hours_enabled)
      (entry "start" (str start) (entry "end" (str stop) empty))

abbrev pub alert_fields : AppConfig → String → String → Fields
alert_fields c start stop = entry "enabled" (bool c.alerts_enabled) (
    entry "thresholdPercent" (int (pos c.alert_threshold_percent))
      (entry "quietHours" (obj (quiet_fields c start stop)) empty))

unfoldable pub known_fields : AppConfig → String → String → Fields
known_fields c start stop = entry "schemaVersion" (int (pos 3)) (
    entry "locale" (str c.locale) (
      entry "providers" (obj (provider_fields c)) (
        entry "claudeConsent" (str c.claude_consent) (
          entry "autostart" (bool c.start_with_windows) (
            entry "colors" (str c.color_mode) (
              entry "alerts" (obj (alert_fields c start stop)) (
                entry "topmost" (bool c.topmost) (
                  entry "view" (str c.display_preset) (
                    entry "x" (coordinate_value c.x)
                      (entry "y" (coordinate_value c.y) empty))))))))))

module _ (p : Platform) where
  abbrev pub overlay_of : Option Value → Result Fields
  overlay_of (some (obj overlay)) =
      if safe_unknown_value p.unicode (obj overlay)
      then ok overlay
      else err (value_error "invalid preserved configuration fields")
  overlay_of _ = err (value_error "invalid preserved configuration fields")

  -- The overlay of the settings, checked again before it is written.
  unfoldable pub checked_overlay : String → Result Fields
  checked_overlay preserved =
      if leb (length (codes preserved)) max_config_bytes
      then overlay_of (p.codec.loads preserved)
      else err (value_error "invalid preserved configuration fields")

  -- `AppConfig.to_json_object`
  unfoldable pub to_json_object : AppConfig → Result Fields
  to_json_object c = do
    start ← format_or_raise c.quiet_start_minutes
    stop ← format_or_raise c.quiet_end_minutes
    overlay ← checked_overlay c.preserved_unknown_json
    merge_unknown_overlay p.unicode (known_fields c start stop) overlay
