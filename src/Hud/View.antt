-- ===== src/Hud/View.antt =====
-- src/limit_halo/ui.py, `WidgetWindow`: the metrics and the layout of a redraw, computed from the
-- store, the configuration and the clients that are present. A view is what one of the two
-- computations reads; workers may write to the store between them.
use limit_halo.Prelude.{
  ℕ, String, Bool, true, false, ◌&&◌, not, Option, none, some, List, [], ◌∷◌, str_eq, if◌then◌else◌,
  length, map, min, max, all, ◌==◌, ◌||◌,
}
use limit_halo.Prelude.Result.{Result, Error, ok, err, runtime_error, value_error, ◌>>=◌}
use limit_halo.Model.Metric.{
  Metric, ProviderState, refreshing, unavailable, claude_keys, is_unavailable, blank_metric,
}
use limit_halo.Model.Store.{MetricStore, snapshot, ever_succeeded}
use limit_halo.Model.Visibility.{resolve_provider_visibility, is_visible, ProviderResolution}
use limit_halo.Hud.Select.{select_visible_hud_metrics}
use limit_halo.Hud.Layout.{layout_mode, compute_layout, PhysicalLayout}

pub record View : Type 0 where
  pub store : MetricStore
  pub display_preset : String
  pub codex_mode : String
  pub claude_mode : String
  -- `provider_present`
  pub codex_present : Bool
  pub claude_present : Bool

abbrev mode_of : View → String → String
mode_of v provider = if str_eq provider "codex" then v.codex_mode else v.claude_mode

abbrev present_of : View → String → Bool
present_of v provider = if str_eq provider "codex" then v.codex_present else v.claude_present

abbrev shows : ProviderResolution → Result Bool
shows r = ok (is_visible (ok r))

unfoldable pub provider_visible : View → String → Result Bool
unfolding resolve_provider_visibility ever_succeeded
provider_visible v provider = do
  ever ← ever_succeeded v.store provider
  resolution ← resolve_provider_visibility (mode_of v provider) (present_of v provider) ever none
  shows resolution

abbrev placeholder_duration : String → ℕ
placeholder_duration key = if str_eq key "claude_300" then 300 else 10_080

unfoldable pub placeholder_metrics : String → ProviderState → ℕ → List Metric
placeholder_metrics provider state now =
    if str_eq provider "codex"
    then blank_metric "codex_10080" "codex" 10_080 state now none ∷ []
    else map (λ key. blank_metric key "claude" (placeholder_duration key) state now none)
        claude_keys

abbrev pub is_empty : List Metric → Bool
is_empty [] = true
is_empty _ = false

-- The state of a placeholder: a present client that never succeeded is being read.
abbrev pub first_state : Bool → Bool → ProviderState
first_state present ever = if present && not ever then refreshing else unavailable

unfoldable pub fill_codex : View → Bool → ℕ → List Metric → List Metric
unfolding placeholder_metrics
fill_codex v visible now codex =
    if visible && is_empty codex
    then placeholder_metrics "codex" (first_state v.codex_present v.store.ever.codex) now
    else codex

-- A Claude client that is present and never succeeded, with nothing available yet.
abbrev pub awaits_first : View → Bool → List Metric → Bool
awaits_first v visible claude =
    visible
    && v.claude_present
    && not v.store.ever.claude
    && not (is_empty claude)
    && all (λ (m : Metric). is_unavailable m.state) claude

-- The first of two steps: a client that is being read for the first time is shown so.
unfoldable pub show_first : View → Bool → ℕ → List Metric → List Metric
unfolding placeholder_metrics
show_first v visible now claude =
    if awaits_first v visible claude then placeholder_metrics "claude" refreshing now else claude

unfoldable pub fill_empty : View → Bool → ℕ → List Metric → List Metric
unfolding placeholder_metrics
fill_empty v visible now claude =
    if visible && is_empty claude
    then placeholder_metrics "claude" (first_state v.claude_present v.store.ever.claude) now
    else claude

unfoldable pub fill_claude : View → Bool → ℕ → List Metric → List Metric
unfolding fill_empty show_first
fill_claude v visible now claude = fill_empty v visible now (show_first v visible now claude)

unfoldable pub current_metrics : View → ℕ → Result (List Metric × Bool × Bool)
unfolding fill_codex fill_claude
current_metrics v now = do
  read ← snapshot v.store now
  codex_visible ← provider_visible v "codex"
  claude_visible ← provider_visible v "claude"
  selected ←
      select_visible_hud_metrics v.display_preset (fill_codex v codex_visible now read.0)
        (fill_claude v claude_visible now read.1) codex_visible claude_visible
  ok (selected, codex_visible, claude_visible)

abbrev or_raise : Option String → Result String
or_raise none = err (runtime_error "HUD requires at least one visible provider")
or_raise (some mode) = ok mode

abbrev pub window_count : Bool → List Metric → ℕ
window_count codex_visible codex = min 2 (max (if codex_visible then 1 else 0) (length codex))

unfoldable pub current_layout : View → ℕ → ℕ → Result PhysicalLayout
current_layout v scale now = do
  read ← snapshot v.store now
  codex_visible ← provider_visible v "codex"
  claude_visible ← provider_visible v "claude"
  found ←
      layout_mode v.display_preset codex_visible claude_visible (window_count codex_visible read.0)
  mode ← or_raise found
  compute_layout mode scale true true 2

abbrev pub zip_error : Error
zip_error = value_error "zip() arguments have different lengths"

-- `zip(metrics, text_anchors, strict=True)`
unfoldable pub zip_strict : List Metric → List ℕ → Result (List (Metric × ℕ))
zip_strict [] [] = ok []
zip_strict (m ∷ ms) (x ∷ xs) = do rest ← zip_strict ms xs; ok ((m, x) ∷ rest)
zip_strict _ _ = err zip_error

abbrev pub needs_geometry : PhysicalLayout → PhysicalLayout → Bool
needs_geometry desired layout =
    not (str_eq desired.mode layout.mode) || not (desired.width == layout.width)

abbrev pub drawn : View → PhysicalLayout → ℕ → Result (Option (List (Metric × ℕ)))
drawn during layout later = do
  read ← current_metrics during later
  lanes ← zip_strict read.0 layout.text_anchors
  ok (some lanes)

-- `_redraw`, up to the texts: each metric with its place, or nothing where the geometry is applied
-- instead. `layout` is the layout of the window; the layout that is desired is computed from the
-- view `before`, the metrics afterwards from the view `during`.
unfoldable pub redraw :
    View → View → PhysicalLayout → ℕ → ℕ → ℕ → Result (Option (List (Metric × ℕ)))
unfolding current_metrics current_layout zip_strict
redraw before during layout scale now later = do
  desired ← current_layout before scale now
  if needs_geometry desired layout then ok none else drawn during layout later
