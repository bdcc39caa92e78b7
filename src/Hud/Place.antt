-- ===== src/Hud/Place.antt =====
-- src/limit_halo/ui.py: where the window stands. Coordinates are signed, sizes are natural numbers,
-- the scale is counted in quarters.
pub mod Contained
use limit_halo.Prelude.{
  ℕ, ◌+◌, ◌*◌, ◌/◌, Bool, true, false, ◌||◌, ◌&&◌, not, List, [], ◌∷◌, ◌==◌, if◌then◌else◌, Option,
  none, some, String,
}
use limit_halo.Prelude.Int.{ℤ, pos, ◌+ℤ◌, ◌-ℤ◌, leb_ℤ, ltb_ℤ}
use limit_halo.Prelude.Result.{Result, ok, err, value_error}
use limit_halo.Hud.Layout.{scaled}

pub record Area : Type 0 where
  pub left : ℤ
  pub top : ℤ
  pub right : ℤ
  pub bottom : ℤ

abbrev pub min_ℤ : ℤ → ℤ → ℤ
min_ℤ a b = if leb_ℤ a b then a else b

abbrev pub max_ℤ : ℤ → ℤ → ℤ
max_ℤ a b = if leb_ℤ a b then b else a

abbrev pub Point : Type 0
Point = ℤ × ℤ

-- One axis of `clamp_origin_to_work_area`.
unfoldable pub clamp_axis : ℤ → ℕ → ℤ → ℤ → ℤ
clamp_axis x size low high =
    if leb_ℤ (pos size) (high -ℤ low) then min_ℤ (max_ℤ x low) (high -ℤ pos size) else low

abbrev fits : ℕ → ℤ → ℤ → Bool
fits size low high = leb_ℤ (pos size) (high -ℤ low)

unfoldable pub clamp_origin_to_work_area : ℤ → ℤ → ℕ → ℕ → Area → Result (ℤ × ℤ × Bool)
unfolding clamp_axis
clamp_origin_to_work_area x y width height area =
    if width == 0
      || height == 0
      || not (ltb_ℤ area.left area.right)
      || not (ltb_ℤ area.top area.bottom)
    then err (value_error "invalid native window or work-area rectangle")
    else ok (
      clamp_axis x width area.left area.right,
      clamp_axis y height area.top area.bottom,
      fits width area.left area.right && fits height area.top area.bottom,
    )

-- Enough of the window is within the area.
unfoldable pub is_visible_in : ℤ → ℤ → ℕ → ℕ → ℕ → Area → Bool
is_visible_in x y width height scale area =
    leb_ℤ (pos (scaled scale 48))
      (max_ℤ (pos 0) (min_ℤ (x +ℤ pos width) area.right -ℤ max_ℤ x area.left))
    && leb_ℤ (pos (scaled scale 24))
        (max_ℤ (pos 0) (min_ℤ (y +ℤ pos height) area.bottom -ℤ max_ℤ y area.top))

abbrev any_visible : ℤ → ℤ → ℕ → ℕ → ℕ → List Area → Bool
any_visible x y width height scale [] = false
any_visible x y width height scale (area ∷ areas) =
    is_visible_in x y width height scale area || any_visible x y width height scale areas

unfoldable pub recover_position : ℤ → ℤ → ℕ → ℕ → List Area → ℕ → Point
unfolding is_visible_in
recover_position x y width height [] scale = (x, y)
recover_position x y width height (area ∷ areas) scale =
    if any_visible x y width height scale (area ∷ areas) then (x, y) else (
      max_ℤ area.left (area.right -ℤ pos width -ℤ pos (scaled scale 24)),
      area.top +ℤ pos (scaled scale 24),
    )

abbrev holds_pointer : ℤ → ℤ → Area → Bool
holds_pointer x y area =
    leb_ℤ area.left x && ltb_ℤ x area.right && leb_ℤ area.top y && ltb_ℤ y area.bottom

-- The first area under the pointer, or the first area.
area_of : ℤ → ℤ → Area → List Area → Area
area_of x y first [] = first
area_of x y first (area ∷ areas) =
    let rest = area_of x y first areas in if holds_pointer x y area then area else rest

abbrev place_axis : ℤ → ℕ → ℕ → ℤ → ℤ → ℤ
place_axis preferred size margin low high =
    min_ℤ (max_ℤ preferred (low +ℤ pos margin))
      (max_ℤ (low +ℤ pos margin) (high -ℤ pos size -ℤ pos margin))

attention_in : ℤ → ℤ → ℕ → ℕ → ℕ → Area → Point
attention_in x y width height margin area = (
  place_axis
      (if ltb_ℤ (area.right -ℤ pos margin) (x +ℤ pos margin +ℤ pos width)
        then x -ℤ pos width -ℤ pos margin
        else x +ℤ pos margin)
      width margin area.left area.right,
  place_axis (y -ℤ pos (height / 2)) height margin area.top area.bottom,
)

unfoldable pub attention_position : ℤ → ℤ → ℕ → ℕ → List Area → ℕ → Point
unfolding attention_in area_of
attention_position x y width height [] scale = (x, y)
attention_position x y width height (area ∷ areas) scale =
    attention_in x y width height (scaled scale 24) (area_of x y area (area ∷ areas))
