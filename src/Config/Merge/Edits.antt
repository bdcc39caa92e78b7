-- ===== src/Config/Merge/Edits.antt =====
-- What a merge of edited settings keeps and what it takes.
use limit_halo.Prelude.{ℕ, ◌≡◌, String, Bool, true, false, str_eq, ◌==◌, refl, arith, eq_iff}
use limit_halo.Config.{AppConfig}
use limit_halo.Config.Merge.{same_bool, edited_or, merge_settings_changes}

same_str : (s : String) → str_eq s s ≡ true
same_str s = grind (arith, eq_iff)

same_nat : (n : ℕ) → (n == n) ≡ true
same_nat n = ground arith

same_both : (b : Bool) → same_bool b b ≡ true
same_both true = refl
same_both false = refl

-- A dialog without an edit changes nothing.
unedited : (c o : AppConfig) → merge_settings_changes c o o ≡ c
unfolding merge_settings_changes edited_or
unedited c o = simp (
  same_str o.locale,
  same_str o.claude_mode,
  same_str o.codex_mode,
  same_str o.claude_consent,
  same_both o.topmost,
  same_both o.start_with_windows,
  same_str o.display_preset,
  same_str o.color_mode,
  same_both o.alerts_enabled,
  same_nat o.alert_threshold_percent,
  same_both o.quiet_hours_enabled,
  same_nat o.quiet_start_minutes,
  same_nat o.quiet_end_minutes,
)

str_edit : (o e : String) → edited_or str_eq o o e ≡ e
unfolding edited_or
str_edit o e = grind (arith, eq_iff)

nat_edit : (o e : ℕ) → edited_or (λ a b. a == b) o o e ≡ e
unfolding edited_or
nat_edit o e = ground arith

bool_edit : (o e : Bool) → edited_or same_bool o o e ≡ e
unfolding edited_or
bool_edit o e = ground arith

-- An edit on settings that did not change meanwhile is taken whole, but for the position and the
-- metadata.
all_edited :
    (o e : AppConfig)
    → merge_settings_changes o o e ≡ record e {
      schema_version = o.schema_version;
      x = o.x;
      y = o.y;
      preserved_unknown_json = o.preserved_unknown_json;
    }
unfolding merge_settings_changes
all_edited o e = simp (
  str_edit o.locale e.locale,
  str_edit o.claude_mode e.claude_mode,
  str_edit o.codex_mode e.codex_mode,
  str_edit o.claude_consent e.claude_consent,
  bool_edit o.topmost e.topmost,
  bool_edit o.start_with_windows e.start_with_windows,
  str_edit o.display_preset e.display_preset,
  str_edit o.color_mode e.color_mode,
  bool_edit o.alerts_enabled e.alerts_enabled,
  nat_edit o.alert_threshold_percent e.alert_threshold_percent,
  bool_edit o.quiet_hours_enabled e.quiet_hours_enabled,
  nat_edit o.quiet_start_minutes e.quiet_start_minutes,
  nat_edit o.quiet_end_minutes e.quiet_end_minutes,
)

-- The merge of a dialog without an edit is the settings of now; the merge of a dialog on settings
-- that did not change meanwhile is what the dialog holds, with the schema, the position and the
-- unknown fields of now.
pub merge_settings_changes_edits :
    (c o e : AppConfig)
    → (merge_settings_changes c o o ≡ c)
      × (merge_settings_changes o o e ≡ record e {
        schema_version = o.schema_version;
        x = o.x;
        y = o.y;
        preserved_unknown_json = o.preserved_unknown_json;
      })
merge_settings_changes_edits c o e = (unedited c o, all_edited o e)
