-- ===== src/Config.antt =====
-- src/limit_halo/config.py: the settings of a person, and their local times of the day.
pub mod Decode
pub mod Merge
pub mod Clock
pub mod Extension
pub mod Overlay
pub mod Schema
pub mod Strict
pub mod Equality
pub mod File
use limit_halo.Prelude.{ℕ, String, Bool, true, false, not, Option, none, str_eq}
use limit_halo.Prelude.Int.{ℤ}

pub record AppConfig : Type 0 where
  pub schema_version : ℕ
  pub locale : String
  pub claude_mode : String
  pub codex_mode : String
  pub claude_consent : String
  pub topmost : Bool
  pub start_with_windows : Bool
  pub display_preset : String
  pub color_mode : String
  pub alerts_enabled : Bool
  pub alert_threshold_percent : ℕ
  pub quiet_hours_enabled : Bool
  pub quiet_start_minutes : ℕ
  pub quiet_end_minutes : ℕ
  pub x : Option ℤ
  pub y : Option ℤ
  pub preserved_unknown_json : String

abbrev pub safe_defaults : AppConfig
safe_defaults = record {
  schema_version = 3;
  locale = "en-US";
  claude_mode = "auto";
  codex_mode = "auto";
  claude_consent = "not-asked";
  topmost = true;
  start_with_windows = true;
  display_preset = "compact";
  color_mode = "monochrome";
  alerts_enabled = false;
  alert_threshold_percent = 20;
  quiet_hours_enabled = false;
  quiet_start_minutes = 1320;
  quiet_end_minutes = 480;
  x = none;
  y = none;
  preserved_unknown_json = "{}";
}

unfoldable pub claude_enabled : AppConfig → Bool
claude_enabled c = not (str_eq c.claude_mode "disabled")

unfoldable pub consent_completed : AppConfig → Bool
consent_completed c = str_eq c.claude_consent "granted"
