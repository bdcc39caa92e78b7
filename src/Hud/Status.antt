-- ===== src/Hud/Status.antt =====
-- src/limit_halo/ui.py: the color of a metric and the action that a provider offers.
use limit_halo.Prelude.{
  ℕ, ◌-◌, String, Bool, true, false, ◌&&◌, not, Option, none, some, List, str_eq, if◌then◌else◌,
  leb, any,
}
use Prim.Native.String.{◌++◌ as str_append}
use limit_halo.Prelude.Result.{Result, ok, err, value_error}
use limit_halo.Model.Metric.{
  Metric, ProviderState, ready, refreshing, offline, authorization_required, provider_error,
  unavailable,
}
use limit_halo.Config.{AppConfig}

-- The colors by their names in the source.
pub data Color : Type 0 where
  text_color status_grey status_red status_amber : Color

abbrev is_current : ProviderState → Bool
is_current ready = true
is_current refreshing = true
is_current _ = false

color_of : Option ℕ → Color
color_of none = status_grey
color_of (some used) =
    if leb (100 - used) 5
    then status_red
    else if leb (100 - used) 20
    then status_amber
    else text_color

unfoldable pub metric_color : Metric → String → Result Color
unfolding color_of
metric_color m color_mode =
    if not (is_current m.state)
    then ok status_grey
    else if str_eq color_mode "monochrome"
    then ok text_color
    else if not (str_eq color_mode "status")
    then err (value_error "invalid color mode")
    else ok (color_of m.used_percent)

abbrev is_retry : ProviderState → Bool
is_retry offline = true
is_retry provider_error = true
is_retry _ = false

abbrev needs_sign_in : ProviderState → Bool
needs_sign_in authorization_required = true
needs_sign_in _ = false

abbrev is_absent : ProviderState → Bool
is_absent unavailable = true
is_absent _ = false

abbrev any_of : String → (ProviderState → Bool) → List Metric → Bool
any_of provider test metrics =
    any (λ (m : Metric). str_eq m.provider provider && test m.state) metrics

unfoldable pub provider_action : AppConfig → String → List Metric → Option String
provider_action config provider metrics =
    if str_eq provider "claude" && not (str_eq config.claude_consent "granted")
    then some "claude:setup"
    else if any_of provider needs_sign_in metrics
    then some (str_append provider ":sign-in")
    else if any_of provider is_retry metrics
    then some (str_append provider ":retry")
    else if str_eq provider "codex"
        && any_of provider is_absent metrics
        && not (any_of provider (λ st. not (is_absent st)) metrics)
    then some "codex:setup"
    else none
