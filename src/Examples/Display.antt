-- ===== src/Examples/Display.antt =====
-- src/limit_halo/ui.py and the visibility table, on concrete views.
use limit_halo.Prelude.{[], ◌∷◌, suc, ◌≡◌, ◌||◌, ◌&&◌, refl, true, false, some, List, arith, str_eq}
use limit_halo.Prelude.Result.{ok}
use limit_halo.Model.Metric.{Metric}
use limit_halo.Model.Visibility.{resolve_provider_visibility, is_visible}
use limit_halo.Model.Visibility.Table.{resolve_provider_visibility-visible}
use limit_halo.Model.Coalescer.{at, Coalescer, new_coalescer, request, complete}
use limit_halo.Model.Coalescer.Accounting.{requests, requests_coalesce}
use limit_halo.Hud.Layout.{PhysicalLayout, physical_layout, compute_layout}
use limit_halo.Model.Store.{snapshot}
use limit_halo.Hud.View.{View, provider_visible, redraw}
use limit_halo.Hud.Redraw.{IsOutcome, lanes_of, redraw_lanes}
use limit_halo.Examples.Store.{history, history-AllValidCalls, seen}

abbrev both : View
both = record {
  store = seen;
  display_preset = "wide";
  codex_mode = "auto";
  claude_mode = "enabled";
  codex_present = true;
  claude_present = false;
}

abbrev wide_layout : PhysicalLayout
wide_layout = physical_layout 6 "both-wide" (record {
  size = (436, 84);
  icon_anchors = ("codex", 20, 42) ∷ ("claude", 196, 42) ∷ [];
  text_anchors = 41 ∷ 113 ∷ 217 ∷ 289 ∷ 361 ∷ [];
  hit_rects = (2, 12, 192, 72) ∷ (178, 12, 434, 72) ∷ [];
})

-- The layout of the window is that of two Codex windows.
redraw_lanes_example :
    (codex : List Metric) × (claude : List Metric) × (codex' : List Metric) × (claude' : List
      Metric)
    × (snapshot both.store 500 ≡ ok (codex, claude))
    × (snapshot both.store 501 ≡ ok (codex', claude'))
    × IsOutcome
        (redraw both both wide_layout 6 500 501)
        (lanes_of "wide" true true codex)
        (lanes_of "wide" true true codex')
unfolding provider_visible compute_layout
redraw_lanes_example =
    redraw_lanes both both 0 history history wide_layout 6 500 501 true true true true refl
      history-AllValidCalls refl history-AllValidCalls refl refl (omega arith) (omega arith) refl
      refl refl refl refl refl

resolve_provider_visibility-visible_example :
    is_visible (resolve_provider_visibility "auto" false true (some "offline"))
    ≡ (str_eq "auto" "enabled" || str_eq "auto" "auto" && (false || true))
resolve_provider_visibility-visible_example =
    resolve_provider_visibility-visible "auto" false true (some "offline")

abbrev burst : Coalescer
burst = requests (suc 3) "claude" (request new_coalescer "claude").1

requests_coalesce_example :
    ((complete burst "claude").0 ≡ ok true)
    × (complete (complete burst "claude").1 "claude" ≡ (ok false, new_coalescer))
unfolding at
requests_coalesce_example = requests_coalesce new_coalescer "claude" 3 refl refl
