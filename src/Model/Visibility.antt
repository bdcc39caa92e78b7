-- ===== src/Model/Visibility.antt =====
-- src/limit_halo/model.py, `resolve_provider_visibility`: which provider lanes are shown.
pub mod Table
use limit_halo.Prelude.{
  ◌≡◌, ◌↔◌, ◌⊎◌, String, Bool, true, false, ◌||◌, ◌&&◌, not, Option, none, some, arith, str_eq,
  eq_iff, if◌then◌else◌,
}
use limit_halo.Prelude.Result.{Result, ok, err, value_error}

pub data LaneVisibility : Type 0 where
  hidden visible : LaneVisibility

pub record ProviderResolution : Type 0 where
  pub lane : LaneVisibility
  pub collector : String
  pub config_mutation : String

abbrev resolution : LaneVisibility → String → ProviderResolution
resolution lane collector = record { lane = lane; collector = collector; config_mutation = "none" }

-- `if runtime_error`: a text that is there and not empty.
abbrev pub is_truthy : Option String → Bool
is_truthy none = false
is_truthy (some text) = not (str_eq text "")

unfoldable pub resolve_provider_visibility :
    String → Bool → Bool → Option String → Result ProviderResolution
resolve_provider_visibility selection present ever_succeeded runtime_error =
    if not (str_eq selection "auto" || str_eq selection "enabled" || str_eq selection "disabled")
    then err (value_error "invalid provider selection")
    else if str_eq selection "disabled"
    then ok (resolution hidden "stopped")
    else if str_eq selection "auto" && not present && not ever_succeeded
    then ok (resolution hidden "not-started")
    else if str_eq selection "auto" && not present
    then ok (resolution visible "backoff")
    else if str_eq selection "enabled" && not present
    then ok (resolution visible "not-started")
    else if is_truthy runtime_error
    then ok (resolution visible "backoff")
    else ok (resolution visible "running")

abbrev pub is_visible : Result ProviderResolution → Bool
is_visible (err e) = false
is_visible (ok r) = elim r.lane [ hidden ↦ false | visible ↦ true ]
