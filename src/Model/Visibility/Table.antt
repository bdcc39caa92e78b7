-- ===== src/Model/Visibility/Table.antt =====
-- The visibility table, read as conditions.
use limit_halo.Prelude.{str_apart, refl, ◌≡◌, String, Bool, ◌||◌, ◌&&◌, Option, arith, str_eq}
use limit_halo.Model.Visibility.{resolve_provider_visibility, is_visible}

-- A lane is shown exactly when the provider is enabled, or is on automatic and its client is
-- present or once succeeded. A runtime error never hides a lane.
pub resolve_provider_visibility-visible :
    (selection : String) (present ever : Bool) (problem : Option String)
    → is_visible (resolve_provider_visibility selection present ever problem)
      ≡ (str_eq selection "enabled" || str_eq selection "auto" && (present || ever))
unfolding resolve_provider_visibility
resolve_provider_visibility-visible selection present ever problem = ground (
  arith,
  str_apart selection "enabled" "disabled" refl,
  str_apart selection "auto" "disabled" refl,
  str_apart selection "auto" "enabled" refl,
)
