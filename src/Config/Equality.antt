-- ===== src/Config/Equality.antt =====
-- The equality of the frozen dataclass `AppConfig`: every field is compared.
use limit_halo.Prelude.{
  Bool, true, false, ◌&&◌, Option, none, some, ◌≡◌, refl, ap, str_eq, eq_iff, ◌==◌, both_true,
  arith,
}
use limit_halo.Prelude.Int.{ℤ, eqb_ℤ}
use limit_halo.Config.{AppConfig}
use limit_halo.Config.Merge.{same_bool}

unfoldable pub same_coordinate : Option ℤ → Option ℤ → Bool
same_coordinate none none = true
same_coordinate (some a) (some b) = eqb_ℤ a b
same_coordinate _ _ = false

unfoldable pub same_texts : AppConfig → AppConfig → Bool
same_texts a b =
    str_eq a.locale b.locale
    && str_eq a.claude_mode b.claude_mode
    && str_eq a.codex_mode b.codex_mode
    && str_eq a.claude_consent b.claude_consent
    && str_eq a.display_preset b.display_preset
    && str_eq a.color_mode b.color_mode
    && str_eq a.preserved_unknown_json b.preserved_unknown_json

unfoldable pub same_switches : AppConfig → AppConfig → Bool
same_switches a b =
    same_bool a.topmost b.topmost
    && same_bool a.start_with_windows b.start_with_windows
    && same_bool a.alerts_enabled b.alerts_enabled
    && same_bool a.quiet_hours_enabled b.quiet_hours_enabled

unfoldable pub same_numbers : AppConfig → AppConfig → Bool
unfolding same_coordinate
same_numbers a b =
    a.schema_version == b.schema_version
    && a.alert_threshold_percent == b.alert_threshold_percent
    && a.quiet_start_minutes == b.quiet_start_minutes
    && a.quiet_end_minutes == b.quiet_end_minutes
    && same_coordinate a.x b.x
    && same_coordinate a.y b.y

unfoldable pub same_config : AppConfig → AppConfig → Bool
same_config a b = same_texts a b && same_switches a b && same_numbers a b

abbrev Texts : AppConfig → AppConfig → Type 0
Texts a b =
    (a.locale ≡ b.locale)
    × (a.claude_mode ≡ b.claude_mode)
    × (a.codex_mode ≡ b.codex_mode)
    × (a.claude_consent ≡ b.claude_consent)
    × (a.display_preset ≡ b.display_preset)
    × (a.color_mode ≡ b.color_mode)
    × (a.preserved_unknown_json ≡ b.preserved_unknown_json)

abbrev Switches : AppConfig → AppConfig → Type 0
Switches a b =
    (a.topmost ≡ b.topmost)
    × (a.start_with_windows ≡ b.start_with_windows)
    × (a.alerts_enabled ≡ b.alerts_enabled)
    × (a.quiet_hours_enabled ≡ b.quiet_hours_enabled)

abbrev Numbers : AppConfig → AppConfig → Type 0
Numbers a b =
    (a.schema_version ≡ b.schema_version)
    × (a.alert_threshold_percent ≡ b.alert_threshold_percent)
    × (a.quiet_start_minutes ≡ b.quiet_start_minutes)
    × (a.quiet_end_minutes ≡ b.quiet_end_minutes)
    × (a.x ≡ b.x)
    × (a.y ≡ b.y)

same_bool_lem : (a b : Bool) → same_bool a b ≡ true → a ≡ b
same_bool_lem true b h = cc
same_bool_lem false true h = cc
same_bool_lem false false h = refl

eqb_lem : (a b : ℤ) → eqb_ℤ a b ≡ true → a ≡ b
eqb_lem a b h = ground arith

coordinate_lem : (a b : Option ℤ) → same_coordinate a b ≡ true → a ≡ b
unfolding same_coordinate
coordinate_lem none none h = refl
coordinate_lem none (some b) h = cc
coordinate_lem (some a) none h = cc
coordinate_lem (some a) (some b) h = ap some (eqb_lem a b h)

texts_lem : (a b : AppConfig) → same_texts a b ≡ true → Texts a b
unfolding same_texts
texts_lem a b h = grind (arith, eq_iff)

switches_lem : (a b : AppConfig) → same_switches a b ≡ true → Switches a b
unfolding same_switches
switches_lem a b h = grind (arith, same_bool_lem)

numbers_lem : (a b : AppConfig) → same_numbers a b ≡ true → Numbers a b
unfolding same_numbers
numbers_lem a b h = grind (arith, coordinate_lem)

pub same_config_lem : (a b : AppConfig) → same_config a b ≡ true → a ≡ b
unfolding same_config
same_config_lem a b h =
    let (hts, hn) = both_true (same_texts a b && same_switches a b) (same_numbers a b) h in
    let (ht, hs) = both_true (same_texts a b) (same_switches a b) hts in
    let (locale, claude, codex, consent, preset, color, preserved) = texts_lem a b ht in
    let (topmost, start, alerts, quiet) = switches_lem a b hs in
    let (version, threshold, from, to, x, y) = numbers_lem a b hn in
    λ i. record {
      schema_version = version i;
      locale = locale i;
      claude_mode = claude i;
      codex_mode = codex i;
      claude_consent = consent i;
      topmost = topmost i;
      start_with_windows = start i;
      display_preset = preset i;
      color_mode = color i;
      alerts_enabled = alerts i;
      alert_threshold_percent = threshold i;
      quiet_hours_enabled = quiet i;
      quiet_start_minutes = from i;
      quiet_end_minutes = to i;
      x = x i;
      y = y i;
      preserved_unknown_json = preserved i;
    }
