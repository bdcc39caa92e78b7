-- ===== src/Hud/Lanes.antt =====
-- One lane for each metric: what `_redraw` needs of the metrics and the layout.
use limit_halo.Prelude.{
  zero, suc, ◌∙◌, ap, ◌<◌, Bool-cases, suc, ℕ, ◌+◌, ◌≡◌, ◌≤◌, ◌⊎◌, inl, inr, refl, String, Bool,
  true, false, ◌||◌, ◌&&◌, some, List, [], ◌∷◌, ◌++◌, str_eq, ◌==◌, if◌then◌else◌, length, map, min,
  arith, take, sort_by, length-sort_by, length-append, length-map,
}
use limit_halo.Prelude.Result.{ok}
use limit_halo.Dict.{lookup, insert, keys}
use limit_halo.Model.Metric.{Metric, claude_keys}
use limit_halo.Model.Store.{by_key, select_keys}
use limit_halo.Hud.Select.{
  select_codex, select_claude, select_visible_hud_metrics, last_one, window,
}
use limit_halo.Hud.Layout.{
  ModeSpec, scaled, layout_mode, compute_layout, PhysicalLayout, mode_specs, physical_layout,
}

-- The metrics stand under the three Claude keys, in their order.
abbrev pub HasClaudeKeys : List Metric → Type 0
HasClaudeKeys ms = map (λ (m : Metric). m.key) ms ≡ claude_keys

-- Three metrics with the three keys are selected as they are.
select_claude_lem : (ms : List Metric) → HasClaudeKeys ms → select_claude ms ≡ ok ms
unfolding select_claude
select_claude_lem [] h = cc
select_claude_lem (a ∷ []) h = cc
select_claude_lem (a ∷ b ∷ []) h = cc
select_claude_lem (a ∷ b ∷ c ∷ d ∷ ms) h = cc
select_claude_lem (a ∷ b ∷ c ∷ []) h =
    let first : a.key ≡ "claude_300" = cc in
    let second : b.key ≡ "claude_10080" = cc in
    let third : c.key ≡ "claude_fable_10080" = cc in
    unfold by_key insert keys lookup select_keys in simp (first, second, third)

length-HasClaudeKeys : (ms : List Metric) → HasClaudeKeys ms → length ms ≡ 3
length-HasClaudeKeys ms h =
    omega (arith, length-map (λ (m : Metric). m.key) ms, ap (length {A = String}) h)

length-last_one : (m : Metric) (ms : List Metric) → length (last_one (m ∷ ms)) ≡ 1
length-last_one m [] = refl
length-last_one m (n ∷ ms) = length-last_one n ms

-- How many Codex lanes a view of `n` windows has.
abbrev pub codex_lanes : String → Bool → ℕ → ℕ
codex_lanes preset false n = 0
codex_lanes preset true n = if str_eq preset "wide" then min 2 n else 1

length-take : (n : ℕ) (ms : List Metric) → length (take n ms) ≡ min n (length ms)
length-take zero ms = omega arith
length-take (suc n) [] = omega arith
length-take (suc n) (m ∷ ms) = omega (arith, length-take n ms)

abbrev pub IsPreset : String → Type 0
IsPreset preset = (str_eq preset "compact" || str_eq preset "wide") ≡ true

select_codex_lem :
    (preset : String) (values : List Metric) (visible : Bool)
    → IsPreset preset
    → (visible ≡ false) ⊎ (0 < length values)
    → (out : List Metric) × (select_codex preset values visible ≡ ok out)
      × (length out ≡ codex_lanes preset visible (length values))
unfolding select_codex
select_codex_lem preset [] false known some_window = ([], ground arith, refl)
select_codex_lem preset [] true known some_window = absurd (ground arith)
select_codex_lem preset (m ∷ ms) false known some_window = ([], ground arith, refl)
select_codex_lem preset (m ∷ ms) true known some_window = elim (Bool-cases (str_eq preset "wide")) [
  | inl wide ↦ (take 2 (m ∷ ms), rw wide, rw wide (length-take 2 (m ∷ ms)))
  | inr other ↦ (last_one (m ∷ ms), ground arith, rw other (length-last_one m ms))
]

abbrev pub claude_lanes : Bool → ℕ
claude_lanes visible = if visible then 3 else 0

-- The number of selected metrics, for a known preset.
pub length-select :
    (preset : String) (codex claude : List Metric) (codex_visible claude_visible : Bool)
    → IsPreset preset
    → (codex_visible ≡ false) ⊎ (0 < length codex)
    → HasClaudeKeys claude
    → (selected : List Metric) × (select_visible_hud_metrics preset codex claude codex_visible
          claude_visible
        ≡ ok selected)
      × (length selected
          ≡ codex_lanes preset codex_visible (length codex) + claude_lanes claude_visible)
unfolding select_visible_hud_metrics
length-select preset codex claude codex_visible claude_visible known some_window named =
    let size : length (sort_by window codex) ≡ length codex = length-sort_by window codex in
    let (out, chosen, lanes) =
      select_codex_lem preset (sort_by window codex) codex_visible known (rw size some_window) in
    let lanes' : length out ≡ codex_lanes preset codex_visible (length codex) = rw size at lanes in
    elim (Bool-cases claude_visible) [
      | inl shown ↦ (
        out ++ claude,
        rw (chosen, shown, select_claude_lem claude named),
        rw shown
            (length-append out claude ∙ omega (arith, lanes', length-HasClaudeKeys claude named)),
      )
      | inr absent ↦
          (out ++ [], rw (chosen, absent), rw absent (length-append out [] ∙ omega (arith, lanes')))
    ]

-- A named mode gives its own layout, at every supported scale.
compute_layout_named :
    (mode : String) (spec : ModeSpec) (scale : ℕ)
    → 4 ≤ scale
    → scale ≤ 12
    → lookup mode mode_specs ≡ some spec
    → compute_layout mode scale true true 2 ≡ ok (physical_layout scale mode spec)
unfolding compute_layout
compute_layout_named mode spec scale low high named = rw named (ground (arith, named))

-- The mode of a view.
abbrev pub view_mode : Bool → Bool → Bool → String
view_mode two true true = if two then "both-wide" else "both-compact"
view_mode two true false = if two then "codex-two-window" else "codex-one-window"
view_mode two false _ = "claude-only"

layout_mode_lem :
    (preset : String) (n : ℕ) (codex_visible claude_visible : Bool)
    → IsPreset preset
    → n ≤ 2
    → (codex_visible || claude_visible) ≡ true
    → layout_mode preset codex_visible claude_visible n
      ≡ ok (some (view_mode (str_eq preset "wide" && n == 2) codex_visible claude_visible))
unfolding layout_mode
layout_mode_lem preset n true true known few shown = ground arith
layout_mode_lem preset n true false known few shown = ground arith
layout_mode_lem preset n false true known few shown = ground arith
layout_mode_lem preset n false false known few shown = cc

mode_lanes :
    (two codex_visible claude_visible : Bool)
    → (codex_visible || claude_visible) ≡ true
    → (spec : ModeSpec) × (lookup (view_mode two codex_visible claude_visible) mode_specs
        ≡ some spec)
      × (length spec.text_anchors
          ≡ (if codex_visible then (if two then 2 else 1) else 0) + claude_lanes claude_visible)
unfolding lookup
mode_lanes true true true shown = (_, refl, refl)
mode_lanes false true true shown = (_, refl, refl)
mode_lanes true true false shown = (_, refl, refl)
mode_lanes false true false shown = (_, refl, refl)
mode_lanes two false true shown = (_, refl, refl)
mode_lanes two false false shown = cc

window_lanes :
    (preset : String) (n : ℕ) (codex_visible claude_visible : Bool)
    → IsPreset preset
    → (codex_visible ≡ false) ⊎ (1 ≤ n)
    → n ≤ 2
    → (if codex_visible then (if str_eq preset "wide" && n == 2 then 2 else 1) else 0)
        + claude_lanes claude_visible
      ≡ codex_lanes preset codex_visible n + claude_lanes claude_visible
window_lanes preset n false claude_visible known some_window few = refl
window_lanes preset n true claude_visible known some_window few = ground arith

-- The lanes of the layout that fits the same view.
pub length-text_anchors :
    (preset : String) (scale n : ℕ) (codex_visible claude_visible : Bool)
    → IsPreset preset
    → 4 ≤ scale
    → scale ≤ 12
    → (codex_visible ≡ false) ⊎ (1 ≤ n)
    → n ≤ 2
    → (codex_visible || claude_visible) ≡ true
    → (mode : String) × (layout : PhysicalLayout) × (layout_mode preset codex_visible claude_visible
          n
        ≡ ok (some mode))
      × (compute_layout mode scale true true 2 ≡ ok layout)
      × (layout.mode ≡ mode)
      × (length layout.text_anchors
          ≡ codex_lanes preset codex_visible n + claude_lanes claude_visible)
length-text_anchors preset scale n codex_visible claude_visible known low high some_window few
      shown =
    let two : Bool = str_eq preset "wide" && n == 2 in
    let (spec, named, lanes) = mode_lanes two codex_visible claude_visible shown in
    (
      view_mode two codex_visible claude_visible,
      physical_layout scale (view_mode two codex_visible claude_visible) spec,
      layout_mode_lem preset n codex_visible claude_visible known few shown,
      compute_layout_named _ spec scale low high named,
      unfold physical_layout in refl,
      unfold physical_layout in
          length-map (scaled scale) spec.text_anchors
          ∙ lanes
          ∙ window_lanes preset n codex_visible claude_visible known some_window few,
    )
