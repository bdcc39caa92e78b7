-- ===== src/Setup.antt =====
-- src/limit_halo/configure.py: the answers of the setup dialog and what it shows, and the consent that
-- the installer asks for.
pub mod Rollback
pub mod Persist
use limit_halo.Prelude.{
  ◌||◌, str_eq, ◌++◌, ℕ, String, Bool, true, false, not, Option, none, some, List, [], ◌∷◌, ◌==◌,
  if◌then◌else◌,
}
use limit_halo.Prelude.Result.{
  Result, ok, err, Error, value_error, os_error, runtime_error, ◌>>=◌, ◌>>◌, raise_if,
}
use limit_halo.Json.{Value, obj}
use limit_halo.Claude.Frame.{codes}
use limit_halo.Config.{AppConfig, consent_completed}
use limit_halo.Config.Decode.{parse_clock}
use limit_halo.Config.Merge.{same_bool}
use limit_halo.Config.Equality.{same_config}
use limit_halo.Config.Schema.{Platform, to_json_object, format_or_raise}
use limit_halo.Config.Strict.{decode_config}
use limit_halo.Config.File.{load, Reading, Outcome, ConfigStore, Writing, save, write_blocked}

abbrev minutes_or_raise : Option ℕ → Result ℕ
minutes_or_raise none = err (value_error "invalid local time")
minutes_or_raise (some m) = ok m

-- `parse_local_time`
unfoldable pub parse_local_time : String → Result ℕ
parse_local_time text = minutes_or_raise (parse_clock (codes text))

-- `format_local_time`
abbrev pub format_local_time : ℕ → Result String
format_local_time m = format_or_raise m

-- The answers of the dialog.
pub record Answers : Type 0 where
  pub locale : String
  pub claude_mode : String
  pub codex_mode : String
  pub claude_access : Bool
  pub view : String
  pub colors : String
  pub alerts : Bool
  pub threshold : ℕ
  pub quiet_hours : Bool
  pub quiet_start : String
  pub quiet_end : String
  pub startup : Bool

-- The settings with the answers, and the times that were parsed.
unfoldable pub candidate : AppConfig → Answers → ℕ → ℕ → AppConfig
candidate current a from to = record current {
  locale = a.locale;
  claude_mode = a.claude_mode;
  codex_mode = a.codex_mode;
  claude_consent =
      if a.claude_access
      then "granted"
      else if consent_completed current
      then "denied"
      else current.claude_consent;
  display_preset = a.view;
  color_mode = a.colors;
  alerts_enabled = a.alerts;
  alert_threshold_percent = a.threshold;
  quiet_hours_enabled = a.quiet_hours;
  quiet_start_minutes = from;
  quiet_end_minutes = to;
  start_with_windows = a.startup;
}

module _ (p : Platform) (read_json : List ℕ → Option Value) where
  abbrev check_candidate : AppConfig → Result AppConfig
  check_candidate c = do
    fields ← to_json_object p c
    raise_if (not (same_config (decode_config p (obj fields)) c))
        (value_error "invalid setup answers")
    ok c

  -- `build_config_from_answers`
  unfoldable pub build_config_from_answers : AppConfig → Answers → Result AppConfig
  unfolding parse_local_time candidate
  build_config_from_answers current a = do
    from ← parse_local_time a.quiet_start
    to ← parse_local_time a.quiet_end
    raise_if (from == to) (value_error "quiet-hours interval is empty")
    check_candidate (candidate current a from to)

  abbrev granted_exit : Outcome AppConfig → Writing → ℕ × Outcome (Unit {0})
  granted_exit o w = elim o.result [
    | err e ↦ (1, record { store = o.store; result = err e; replaced = o.replaced })
    | ok c ↦
        let saved =
          save p read_json (record c { claude_mode = "enabled"; claude_consent = "granted" }) w
            o.store in
        (elim saved.result [ ok _ ↦ 0 | err e ↦ 1 ], saved)
  ]

  -- `grant_claude_quota_access`: its exit code and what it leaves.
  unfoldable pub grant_claude_quota_access :
      Reading → Writing → Writing → ConfigStore → ℕ × Outcome (Unit {0})
  grant_claude_quota_access r migration w s = granted_exit (load p read_json r migration s) w

-- What the dialog shows.
pub record SettingsSurface : Type 0 where
  pub tabs : List String
  pub provider_rows : List String
  pub claude_access_action : Option String
  pub alert_details : List String
  pub advanced_visible : Bool
  pub daily_duplicates : List String
  pub help_actions : List String

-- `settings_surface`
unfoldable pub settings_surface : AppConfig → Bool → Bool → SettingsSurface
settings_surface c codex_present claude_present = record {
  tabs = "settings" ∷ "help" ∷ [];
  provider_rows =
      (if claude_present then "claude" ∷ [] else [])
      ++ (if codex_present then "codex" ∷ [] else []);
  claude_access_action =
      if claude_present
      then some (if str_eq c.claude_consent "granted" then "revoke" else "connect")
      else none;
  alert_details = if c.alerts_enabled then "threshold" ∷ "quiet-hours" ∷ [] else [];
  advanced_visible = str_eq c.display_preset "wide" || c.quiet_hours_enabled;
  daily_duplicates = [];
  help_actions = "copy-ai-repair-report" ∷ "privacy-about" ∷ [];
}
