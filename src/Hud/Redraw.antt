-- ===== src/Hud/Redraw.antt =====
-- A redraw pairs each metric with a lane; when `zip(metrics, text_anchors, strict=True)` raises.
use limit_halo.Hud.View.{show_first, fill_empty, awaits_first, is_empty, first_state}
use limit_halo.Prelude.{
  if_holds, ◌+◌, ◌≢◌, ◌∙◌, sym, ap, not, str_eq, eq_iff, ◌==◌, none, some, Option, if_both, ℕ, ◌≡◌,
  ◌≤◌, ◌<◌, ◌⊎◌, inl, inr, refl, String, Bool, true, false, ◌||◌, ◌&&◌, List, [], ◌∷◌, length,
  arith,
}
use limit_halo.Prelude.Result.{Result, ok, err}
use limit_halo.Model.Metric.{Metric, ProviderState, refreshing}
use limit_halo.Model.Store.{new_store, snapshot}
use limit_halo.Model.Store.Calls.{Call, run}
use limit_halo.Model.Store.Consistency.Calls.{AllValidCalls}
use limit_halo.Model.Store.Snapshot.{snapshot_total}
use limit_halo.Hud.Layout.{PhysicalLayout, compute_layout}
use limit_halo.Hud.View.{
  View, provider_visible, fill_codex, fill_claude, placeholder_metrics, window_count,
  current_metrics, current_layout, zip_error, zip_strict, needs_geometry, drawn, redraw,
}
use limit_halo.Hud.Lanes.{
  HasClaudeKeys, IsPreset, codex_lanes, claude_lanes, length-select, length-text_anchors,
}

placeholder-HasClaudeKeys :
    (state : ProviderState) (now : ℕ) → HasClaudeKeys (placeholder_metrics "claude" state now)
unfolding placeholder_metrics
placeholder-HasClaudeKeys _ now = refl

fill_claude-HasClaudeKeys :
    (v : View) (visible : Bool) (now : ℕ) (claude : List Metric)
    → HasClaudeKeys claude
    → HasClaudeKeys (fill_claude v visible now claude)
unfolding fill_claude
fill_claude-HasClaudeKeys v visible now claude named = filled (show_first v visible now claude) (
    unfold show_first in
    if_both HasClaudeKeys (awaits_first v visible claude)
      (placeholder_metrics "claude" refreshing now) claude
      (placeholder-HasClaudeKeys refreshing now) named)
  where
    filled : (ms : List Metric) → HasClaudeKeys ms → HasClaudeKeys (fill_empty v visible now ms)
    filled ms h =
        unfold fill_empty in
        if_both HasClaudeKeys (visible && is_empty ms)
          (placeholder_metrics "claude" (first_state v.claude_present v.store.ever.claude) now) ms
          (placeholder-HasClaudeKeys (first_state v.claude_present v.store.ever.claude) now) h

-- A visible Codex lane is never without a metric, and the windows are counted as they are shown.
fill_codex_some :
    (v : View) (visible : Bool) (now : ℕ) (codex : List Metric)
    → (visible ≡ false) ⊎ (0 < length (fill_codex v visible now codex))
unfolding fill_codex
fill_codex_some v false now codex = inl refl
fill_codex_some v true now [] = inr (omega arith)
fill_codex_some v true now (m ∷ ms) = inr (omega arith)

fill_codex_lanes :
    (v : View) (preset : String) (visible : Bool) (now : ℕ) (codex : List Metric)
    → length codex ≤ 2
    → codex_lanes preset visible (length (fill_codex v visible now codex))
      ≡ codex_lanes preset visible (window_count visible codex)
unfolding fill_codex
fill_codex_lanes v preset false now codex few = refl
fill_codex_lanes v preset true now [] few = ground arith
fill_codex_lanes v preset true now (m ∷ ms) few = ground arith

window_count_some :
    (visible : Bool) (codex : List Metric) → (visible ≡ false) ⊎ (1 ≤ window_count visible codex)
window_count_some false codex = inl refl
window_count_some true codex = inr (omega arith)

-- Two lists are paired exactly where they have one length.
abbrev IsPaired : List Metric → List ℕ → Type 0
IsPaired ms xs =
    ((lanes : List (Metric × ℕ)) × (zip_strict ms xs ≡ ok lanes) × (length ms ≡ length xs))
    ⊎ ((zip_strict ms xs ≡ err zip_error) × (length ms ≢ length xs))

one_longer :
    (m : Metric) (x : ℕ) (ms : List Metric) (xs : List ℕ)
    → IsPaired ms xs
    → IsPaired (m ∷ ms) (x ∷ xs)
unfolding zip_strict
one_longer m x ms xs (inl (lanes, e, h)) = inl ((m, x) ∷ lanes, rw e, omega (arith, h))
one_longer m x ms xs (inr (e, h)) = inr (rw e, λ same. h (omega (arith, same)))

zip_strict-IsPaired : (ms : List Metric) (xs : List ℕ) → IsPaired ms xs
unfolding zip_strict
zip_strict-IsPaired [] [] = inl ([], refl, refl)
zip_strict-IsPaired [] (x ∷ xs) = inr (refl, λ h. omega (arith, h))
zip_strict-IsPaired (m ∷ ms) [] = inr (refl, λ h. omega (arith, h))
zip_strict-IsPaired (m ∷ ms) (x ∷ xs) = one_longer m x ms xs (zip_strict-IsPaired ms xs)

-- How many metrics a view of `codex` shows.
abbrev pub lanes_of : String → Bool → Bool → List Metric → ℕ
lanes_of preset codex_visible claude_visible codex =
    codex_lanes preset codex_visible (window_count codex_visible codex)
    + claude_lanes claude_visible

module _ (start : ℕ) (calls : List Call) (v : View) (stored : v.store ≡ run (new_store start) calls)
    (valid : AllValidCalls calls) (codex_visible claude_visible : Bool)
    (known : IsPreset v.display_preset)
    (codex_shown : provider_visible v "codex" ≡ ok codex_visible)
    (claude_shown : provider_visible v "claude" ≡ ok claude_visible) where
  -- The metrics of a view.
  current_metrics_lanes :
      (now : ℕ)
      → (codex : List Metric) × (claude : List Metric) × (selected : List Metric) × (snapshot
            v.store now
          ≡ ok (codex, claude))
        × (current_metrics v now ≡ ok (selected, codex_visible, claude_visible))
        × (length selected ≡ lanes_of v.display_preset codex_visible claude_visible codex)
  current_metrics_lanes now =
      let (codex, claude, read, few, ascending, named) = snapshot_total start calls now valid in
      let read' : snapshot v.store now ≡ ok (codex, claude) = rw stored read in
      let (selected, chosen, lanes) =
        length-select v.display_preset (fill_codex v codex_visible now codex)
          (fill_claude v claude_visible now claude) codex_visible claude_visible known
          (fill_codex_some v codex_visible now codex)
          (fill_claude-HasClaudeKeys v claude_visible now claude named) in
      (
        codex,
        claude,
        selected,
        read',
        unfold current_metrics in rw (read', codex_shown, claude_shown, chosen),
        omega (arith, lanes, fill_codex_lanes v v.display_preset codex_visible now codex few),
      )

  -- The layout of a view.
  current_layout_lanes :
      (now scale : ℕ)
      → 4 ≤ scale
      → scale ≤ 12
      → (codex_visible || claude_visible) ≡ true
      → (codex : List Metric) × (claude : List Metric) × (layout : PhysicalLayout) × (snapshot
            v.store now
          ≡ ok (codex, claude))
        × (current_layout v scale now ≡ ok layout)
        × (compute_layout layout.mode scale true true 2 ≡ ok layout)
        × (length layout.text_anchors
            ≡ lanes_of v.display_preset codex_visible claude_visible codex)
  current_layout_lanes now scale low high shown =
      let (codex, claude, read, few, ascending, named) = snapshot_total start calls now valid in
      let read' : snapshot v.store now ≡ ok (codex, claude) = rw stored read in
      let (mode, layout, moded, computed, same, anchors) =
        length-text_anchors v.display_preset scale (window_count codex_visible codex) codex_visible
          claude_visible known low high (window_count_some codex_visible codex) (omega arith)
          shown in
      (
        codex,
        claude,
        layout,
        read',
        unfold current_layout in rw (read', codex_shown, claude_shown, moded) computed,
        rw same computed,
        anchors,
      )

-- How a redraw ends that counts `wanted` lanes for its layout and `shown` metrics.
abbrev pub IsOutcome : Result (Option (List (Metric × ℕ))) → ℕ → ℕ → Type 0
IsOutcome r wanted shown =
    (r ≡ ok none)
    ⊎ (((lanes : List (Metric × ℕ)) × (r ≡ ok (some lanes)) × (shown ≡ wanted))
        ⊎ ((r ≡ err zip_error) × (shown ≢ wanted)))

drawn-IsOutcome :
    (during : View) (layout : PhysicalLayout) (later wanted shown : ℕ) (selected : List Metric)
    (a b : Bool)
    → current_metrics during later ≡ ok (selected, a, b)
    → length selected ≡ shown
    → length layout.text_anchors ≡ wanted
    → IsOutcome (drawn during layout later) wanted shown
drawn-IsOutcome during layout later wanted shown selected a b read many anchors =
    elim (zip_strict-IsPaired selected layout.text_anchors) [
      | inl (lanes, e, h) ↦ inr (inl (lanes, rw (read, e), sym many ∙ h ∙ anchors))
      | inr (e, h) ↦ inr (inr (rw (read, e), λ same. h (many ∙ same ∙ sym anchors)))
    ]

first_kept : (a b : Bool) → (not a || not b) ≡ false → a ≡ true
first_kept a b h = ground arith

-- A layout with the mode of the desired one is the desired one.
same_mode :
    (desired layout : PhysicalLayout) (scale : ℕ)
    → needs_geometry desired layout ≡ false
    → compute_layout desired.mode scale true true 2 ≡ ok desired
    → compute_layout layout.mode scale true true 2 ≡ ok layout
    → desired ≡ layout
same_mode desired layout scale h d l =
    let same : desired.mode ≡ layout.mode =
      (eq_iff desired.mode layout.mode).0
        (first_kept (str_eq desired.mode layout.mode) (desired.width == layout.width) h) in
    let both : ok desired ≡ ok layout =
      sym d ∙ ap (λ m. compute_layout m scale true true 2) same ∙ l in
    cc

-- A redraw reads the store twice: for the layout that is desired, and later for the metrics. After
-- any calls of the store before each of the two, with metrics that the constructor made, for known
-- presets, a scale between 1 and 3, a provider that is visible at the first and a layout of the
-- window that was computed for this scale, it ends in one of three ways. The geometry is applied
-- instead; or each metric gets its place, and then both views count as many lanes; or the strict `zip`
-- raises, and then the two views count different numbers of lanes. Nothing else raises.
pub redraw_lanes :
    (before during : View) (start : ℕ) (calls later_calls : List Call) (layout : PhysicalLayout)
    (scale now later : ℕ) (codex_before claude_before codex_during claude_during : Bool)
    → before.store ≡ run (new_store start) calls
    → AllValidCalls calls
    → during.store ≡ run (new_store start) later_calls
    → AllValidCalls later_calls
    → IsPreset before.display_preset
    → IsPreset during.display_preset
    → 4 ≤ scale
    → scale ≤ 12
    → compute_layout layout.mode scale true true 2 ≡ ok layout
    → provider_visible before "codex" ≡ ok codex_before
    → provider_visible before "claude" ≡ ok claude_before
    → provider_visible during "codex" ≡ ok codex_during
    → provider_visible during "claude" ≡ ok claude_during
    → (codex_before || claude_before) ≡ true
    → (codex : List Metric) × (claude : List Metric) × (codex' : List Metric) × (claude' : List
        Metric)
      × (snapshot before.store now ≡ ok (codex, claude))
      × (snapshot during.store later ≡ ok (codex', claude'))
      × IsOutcome
          (redraw before during layout scale now later)
          (lanes_of before.display_preset codex_before claude_before codex)
          (lanes_of during.display_preset codex_during claude_during codex')
unfolding redraw
redraw_lanes before during start calls later_calls layout scale now later codex_before claude_before
      codex_during claude_during stored valid stored' valid' known known' low high computed
      codex_shown claude_shown codex_shown' claude_shown' shown =
    let (codex, claude, desired, read, found, named, anchors) =
      current_layout_lanes start calls before stored valid codex_before claude_before known
        codex_shown claude_shown now scale low high shown in
    let (codex', claude', selected, read', metrics, many) =
      current_metrics_lanes start later_calls during stored' valid' codex_during claude_during
        known' codex_shown' claude_shown' later in
    (
      codex,
      claude,
      codex',
      claude',
      read,
      read',
      rw found (
          if_holds
            (λ r.
              IsOutcome r (lanes_of before.display_preset codex_before claude_before codex)
                (lanes_of during.display_preset codex_during claude_during codex'))
            (needs_geometry desired layout) (ok none) (drawn during layout later) (λ _. inl refl)
            (λ same.
              drawn-IsOutcome during layout later _ _ selected codex_during claude_during metrics
                many
                (ap (λ (l : PhysicalLayout). length l.text_anchors)
                    (sym (same_mode desired layout scale same named computed))
                  ∙ anchors))),
    )
