-- ===== src/Config/Merge.antt =====
-- src/limit_halo/ui.py, `merge_settings_changes`: the edits of a dialog on the settings of now.
pub mod Edits
use limit_halo.Prelude.{ℕ, String, Bool, true, false, not, str_eq, ◌==◌, if◌then◌else◌}
use limit_halo.Config.{AppConfig}

abbrev pub same_bool : Bool → Bool → Bool
same_bool true b = b
same_bool false b = not b

-- The field of the dialog where it was edited, else that of now.
unfoldable pub edited_or {ℓ} : {A : Type ℓ} → (A → A → Bool) → A → A → A → A
edited_or same current opened edited = if same edited opened then current else edited

unfoldable pub merge_settings_changes : AppConfig → AppConfig → AppConfig → AppConfig
merge_settings_changes c o e = record c {
  locale = edited_or str_eq c.locale o.locale e.locale;
  claude_mode = edited_or str_eq c.claude_mode o.claude_mode e.claude_mode;
  codex_mode = edited_or str_eq c.codex_mode o.codex_mode e.codex_mode;
  claude_consent = edited_or str_eq c.claude_consent o.claude_consent e.claude_consent;
  topmost = edited_or same_bool c.topmost o.topmost e.topmost;
  start_with_windows =
      edited_or same_bool c.start_with_windows o.start_with_windows e.start_with_windows;
  display_preset = edited_or str_eq c.display_preset o.display_preset e.display_preset;
  color_mode = edited_or str_eq c.color_mode o.color_mode e.color_mode;
  alerts_enabled = edited_or same_bool c.alerts_enabled o.alerts_enabled e.alerts_enabled;
  alert_threshold_percent =
      edited_or (λ a b. a == b) c.alert_threshold_percent o.alert_threshold_percent
        e.alert_threshold_percent;
  quiet_hours_enabled =
      edited_or same_bool c.quiet_hours_enabled o.quiet_hours_enabled e.quiet_hours_enabled;
  quiet_start_minutes =
      edited_or (λ a b. a == b) c.quiet_start_minutes o.quiet_start_minutes e.quiet_start_minutes;
  quiet_end_minutes =
      edited_or (λ a b. a == b) c.quiet_end_minutes o.quiet_end_minutes e.quiet_end_minutes;
}
