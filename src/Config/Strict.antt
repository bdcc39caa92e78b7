-- ===== src/Config/Strict.antt =====
-- src/limit_halo/config.py: the strict decoder of the settings, the current schema and the older
-- ones. A refusal never becomes settings that may be saved.
pub mod Ascii
pub mod RoundTrip
use limit_halo.Prelude.{
  ℕ, String, Bool, ◌&&◌, ◌||◌, Option, none, some, List, [], ◌∷◌, ◌==◌, leb, length, all, mem,
  if◌then◌else◌,
}
use limit_halo.Prelude.Int.{eqb_ℤ, pos}
use limit_halo.Prelude.Maybe.{◌>>=◌, ◌>>◌, require}
use limit_halo.Prelude.Result.{Result, ok, err, ◌>>=◌ as try_then}
use limit_halo.Json.{Value, Fields, null, int, obj, empty, get, keys}
use limit_halo.Claude.Frame.{codes}
use limit_halo.Config.{AppConfig, safe_defaults}
use limit_halo.Config.Decode.{
  parse_minutes, valid_coordinate, coordinate_of, known, is_bool, truth, text, decode_v2,
  decode_legacy,
}
use limit_halo.Config.Extension.{
  has_forbidden_key, safe_unknown_value, v3_keys, provider_keys, alert_keys, quiet_hour_keys,
  without, append_field, max_config_bytes,
}
use limit_halo.Config.Overlay.{merge_unknown_overlay}
use limit_halo.Config.Schema.{Platform, to_json_object}

-- `value` where it is a dictionary.
abbrev pub as_fields : Value → Option Fields
as_fields (obj fs) = some fs
as_fields _ = none

abbrev has_all : List String → Fields → Bool
has_all names fs = all (λ name. mem name (keys fs)) names

-- A threshold of the three that may be chosen.
unfoldable pub threshold_of : Value → Option ℕ
threshold_of (int (pos n)) = if n == 20 || n == 10 || n == 5 then some n else none
threshold_of _ = none

-- A branch of the extension is added where it holds something.
abbrev pub add_branch : String → Fields → Fields → Fields
add_branch name empty fs = fs
add_branch name branch fs = append_field name (obj branch) fs

-- What the current schema does not know.
unfoldable pub unknown_fields : Fields → Fields → Fields → Fields → Fields
unknown_fields fs providers alerts quiet =
    add_branch "alerts"
      (add_branch "quietHours" (without quiet_hour_keys quiet) (without alert_keys alerts))
      (add_branch "providers" (without provider_keys providers) (without v3_keys fs))

-- The tests of the current schema on the fields themselves.
unfoldable pub accepts_v3 : Fields → Fields → Fields → Fields → Bool
accepts_v3 fs providers alerts quiet =
    has_all v3_keys fs
    && is_bool (get "topmost" fs)
    && is_bool (get "autostart" fs)
    && known (get "locale" fs) ("uk-UA" ∷ "en-US" ∷ [])
    && known (get "claudeConsent" fs) ("not-asked" ∷ "granted" ∷ "denied" ∷ [])
    && has_all provider_keys providers
    && known (get "claude" providers) ("auto" ∷ "enabled" ∷ "disabled" ∷ [])
    && known (get "codex" providers) ("auto" ∷ "enabled" ∷ "disabled" ∷ [])
    && known (get "view" fs) ("compact" ∷ "wide" ∷ [])
    && known (get "colors" fs) ("monochrome" ∷ "status" ∷ [])
    && has_all alert_keys alerts
    && is_bool (get "enabled" alerts)
    && has_all quiet_hour_keys quiet
    && is_bool (get "enabled" quiet)
    && valid_coordinate (get "x" fs)
    && valid_coordinate (get "y" fs)

module _ (p : Platform) where
  -- The overlay, merged into the defaults: this rejects disguised aliases of known settings.
  abbrev on_defaults : Fields → Result Fields
  on_defaults overlay =
      try_then (to_json_object p safe_defaults) (λ fs. merge_unknown_overlay p.unicode fs overlay)

  -- `_unknown_overlay`, after the branches are gathered.
  unfoldable pub accepted_overlay : Fields → Option Fields
  accepted_overlay overlay =
      if safe_unknown_value p.unicode (obj overlay)
      then elim (on_defaults overlay) [
        | err e ↦ none
        | ok merged ↦
            if leb (length (codes (p.codec.dumps overlay))) max_config_bytes
            then some overlay
            else none
      ]
      else none

  unfoldable pub decode_v3 : Fields → Option AppConfig
  decode_v3 fs = do
    providers ← as_fields (get "providers" fs)
    alerts ← as_fields (get "alerts" fs)
    quiet ← as_fields (get "quietHours" alerts)
    require (accepts_v3 fs providers alerts quiet)
    threshold ← threshold_of (get "thresholdPercent" alerts)
    start ← parse_minutes (get "start" quiet)
    stop ← parse_minutes (get "end" quiet)
    overlay ← accepted_overlay (unknown_fields fs providers alerts quiet)
    some (record {
      schema_version = 3;
      locale = text (get "locale" fs);
      claude_mode = text (get "claude" providers);
      codex_mode = text (get "codex" providers);
      claude_consent = text (get "claudeConsent" fs);
      topmost = truth (get "topmost" fs);
      start_with_windows = truth (get "autostart" fs);
      display_preset = text (get "view" fs);
      color_mode = text (get "colors" fs);
      alerts_enabled = truth (get "enabled" alerts);
      alert_threshold_percent = threshold;
      quiet_hours_enabled = truth (get "enabled" quiet);
      quiet_start_minutes = start;
      quiet_end_minutes = stop;
      x = coordinate_of (get "x" fs);
      y = coordinate_of (get "y" fs);
      preserved_unknown_json = p.codec.dumps overlay;
    })

  -- The schema of a file; `none` for a version that is no number.
  abbrev decode_version : Value → Fields → Option AppConfig
  decode_version null fs = decode_legacy fs
  decode_version (int n) fs =
      if eqb_ℤ n (pos 3)
      then decode_v3 fs
      else if eqb_ℤ n (pos 2)
      then decode_v2 fs
      else if eqb_ℤ n (pos 1)
      then decode_legacy fs
      else none
  decode_version _ fs = none

  -- `_try_decode_config`
  unfoldable pub strict_decode : Value → Option AppConfig
  strict_decode (obj fs) =
      if has_forbidden_key p.unicode (keys fs)
      then none
      else decode_version (get "schemaVersion" fs) fs
  strict_decode _ = none

  -- `decode_config`
  unfoldable pub decode_config : Value → AppConfig
  decode_config value = elim (strict_decode value) [ none ↦ safe_defaults | some c ↦ c ]
