-- ===== src/Hud/Layout.antt =====
-- src/limit_halo/ui.py: the layout modes and their physical layout. A scale is counted in quarters:
-- `_scale_from_dpi` gives no other.
use limit_halo.Prelude.{
  ℕ, ◌+◌, ◌*◌, ◌/◌, ◌%◌, String, Bool, ◌||◌, ◌&&◌, not, Option, none, some, List, [], ◌∷◌, str_eq,
  ◌==◌, if◌then◌else◌, map, leb, ltb, min, max,
}
use limit_halo.Prelude.Result.{Result, ok, err, value_error, ◌>>=◌, ◌>>◌, raise_if}
use limit_halo.Dict.{Dict, lookup}

-- An icon: its provider and its place.
abbrev pub Anchor : Type 0
Anchor = String × ℕ × ℕ

-- left, top, right, bottom
abbrev pub Rect : Type 0
Rect = ℕ × ℕ × ℕ × ℕ

pub record ModeSpec : Type 0 where
  pub size : ℕ × ℕ
  pub icon_anchors : List Anchor
  pub text_anchors : List ℕ
  pub hit_rects : List Rect

abbrev pub mode_specs : Dict ModeSpec
mode_specs =
    (
      "both-compact",
      record {
        size = (364, 84);
        icon_anchors = ("codex", 20, 42) ∷ ("claude", 124, 42) ∷ [];
        text_anchors = 41 ∷ 145 ∷ 217 ∷ 289 ∷ [];
        hit_rects = (2, 12, 120, 72) ∷ (106, 12, 362, 72) ∷ [];
      },
    )
    ∷ (
      "both-wide",
      record {
        size = (436, 84);
        icon_anchors = ("codex", 20, 42) ∷ ("claude", 196, 42) ∷ [];
        text_anchors = 41 ∷ 113 ∷ 217 ∷ 289 ∷ 361 ∷ [];
        hit_rects = (2, 12, 192, 72) ∷ (178, 12, 434, 72) ∷ [];
      },
    )
    ∷ (
      "claude-only",
      record {
        size = (260, 84);
        icon_anchors = ("claude", 20, 42) ∷ [];
        text_anchors = 41 ∷ 113 ∷ 185 ∷ [];
        hit_rects = (2, 12, 258, 72) ∷ [];
      },
    )
    ∷ (
      "codex-one-window",
      record {
        size = (124, 84);
        icon_anchors = ("codex", 20, 42) ∷ [];
        text_anchors = 41 ∷ [];
        hit_rects = (2, 12, 122, 72) ∷ [];
      },
    )
    ∷ (
      "codex-two-window",
      record {
        size = (196, 84);
        icon_anchors = ("codex", 20, 42) ∷ [];
        text_anchors = 41 ∷ 113 ∷ [];
        hit_rects = (2, 12, 194, 72) ∷ [];
      },
    )
    ∷ []

unfoldable pub layout_mode : String → Bool → Bool → ℕ → Result (Option String)
layout_mode preset codex_visible claude_visible codex_window_count = do
  raise_if (not (str_eq preset "compact" || str_eq preset "wide"))
      (value_error "unsupported preset")
  raise_if (not (leb codex_window_count 2)) (value_error "unsupported Codex window count")
  ok (
      if codex_visible && claude_visible
      then (if str_eq preset "wide" && codex_window_count == 2
          then some "both-wide"
          else some "both-compact")
      else if claude_visible
      then some "claude-only"
      else if codex_visible
      then (if str_eq preset "wide" && codex_window_count == 2
          then some "codex-two-window"
          else some "codex-one-window")
      else none)

-- Python's `round` of n / d: to the nearest, and a half to the even neighbour.
unfoldable pub round_div : ℕ → ℕ → ℕ
round_div n d =
    if ltb (2 * (n % d)) d
    then n / d
    else if ltb d (2 * (n % d))
    then n / d + 1
    else n / d + n / d % 2

-- `round(value * scale)`
unfoldable pub scaled : ℕ → ℕ → ℕ
unfolding round_div
scaled quarters value = round_div (value * quarters) 4

-- `_scale_from_dpi`: `min(2.0, max(1.0, round((dpi / 96.0) * 4) / 4))`
unfoldable pub scale_from_dpi : ℕ → ℕ
unfolding round_div
scale_from_dpi dpi = min 8 (max 4 (round_div dpi 24))

pub record PhysicalLayout : Type 0 where
  pub mode : String
  pub scale : ℕ
  pub width : ℕ
  pub height : ℕ
  pub logical_width : ℕ
  pub logical_height : ℕ
  pub icon_size : ℕ
  pub value_font_size : ℕ
  pub reset_font_size : ℕ
  pub value_y : ℕ
  pub reset_y : ℕ
  pub icon_anchors : List Anchor
  pub text_anchors : List ℕ
  pub hit_rects : List Rect

abbrev scaled_anchor : ℕ → Anchor → Anchor
scaled_anchor q (provider, x, y) = (provider, scaled q x, scaled q y)

abbrev scaled_rect : ℕ → Rect → Rect
scaled_rect q (left, top, right, bottom) =
    (scaled q left, scaled q top, scaled q right, scaled q bottom)

unfoldable pub physical_layout : ℕ → String → ModeSpec → PhysicalLayout
physical_layout q mode spec = record {
  mode = mode;
  scale = q;
  width = scaled q spec.size.0;
  height = scaled q spec.size.1;
  logical_width = spec.size.0;
  logical_height = spec.size.1;
  icon_size = max 26 (scaled q 28);
  value_font_size = max 15 (scaled q 17);
  reset_font_size = max 11 (scaled q 12);
  value_y = scaled q 31;
  reset_y = scaled q 56;
  icon_anchors = map (scaled_anchor q) spec.icon_anchors;
  text_anchors = map (scaled q) spec.text_anchors;
  hit_rects = map (scaled_rect q) spec.hit_rects;
}

-- The mode is the argument itself if it names one, and is found by `layout_mode` if not.
chosen_mode : String → Option ModeSpec → Bool → Bool → ℕ → Result (Option String)
chosen_mode name (some spec) codex_visible claude_visible count = ok (some name)
chosen_mode name none codex_visible claude_visible count =
    layout_mode name codex_visible claude_visible count

layout_of : ℕ → Option String → Result PhysicalLayout
unfolding lookup physical_layout
layout_of q none = err (value_error "no visible layout")
layout_of q (some mode) = elim (lookup mode mode_specs) [
  | none ↦ err (value_error "no visible layout")
  | some spec ↦ ok (physical_layout q mode spec)
]

unfoldable pub compute_layout : String → ℕ → Bool → Bool → ℕ → Result PhysicalLayout
unfolding chosen_mode layout_of lookup
compute_layout name q codex_visible claude_visible count = do
  raise_if (not (leb 4 q && leb q 12)) (value_error "unsupported scale")
  mode ← chosen_mode name (lookup name mode_specs) codex_visible claude_visible count
  layout_of q mode
