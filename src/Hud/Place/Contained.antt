-- ===== src/Hud/Place/Contained.antt =====
-- A clamped window is within its work area.
use limit_halo.Prelude.{both_true, ◌&&◌, ap, sym, ◌∙◌, ℕ, ◌≡◌, true, arith}
use limit_halo.Prelude.Int.{ℤ, pos, ◌+ℤ◌, ◌-ℤ◌, leb_ℤ}
use limit_halo.Hud.Place.{ok, Area, clamp_origin_to_work_area, clamp_axis}

axis_contained :
    (x : ℤ) (size : ℕ) (low high : ℤ)
    → leb_ℤ (pos size) (high -ℤ low) ≡ true
    → (leb_ℤ low (clamp_axis x size low high) ≡ true)
      × (leb_ℤ (clamp_axis x size low high +ℤ pos size) high ≡ true)
unfolding clamp_axis ◌+ℤ◌ ◌-ℤ◌
axis_contained x size low high h = ground arith

-- The rectangle is within the area.
pub record IsContained (x y : ℤ) (width height : ℕ) (area : Area) : Type 0 where
  pub left_in : leb_ℤ area.left x ≡ true
  pub right_in : leb_ℤ (x +ℤ pos width) area.right ≡ true
  pub top_in : leb_ℤ area.top y ≡ true
  pub bottom_in : leb_ℤ (y +ℤ pos height) area.bottom ≡ true

clamped_parts :
    (x y : ℤ) (width height : ℕ) (area : Area) (u v : ℤ)
    → clamp_origin_to_work_area x y width height area ≡ ok (u, v, true)
    → (clamp_axis x width area.left area.right ≡ u)
      × (clamp_axis y height area.top area.bottom ≡ v)
      × ((leb_ℤ (pos width) (area.right -ℤ area.left)
            && leb_ℤ (pos height) (area.bottom -ℤ area.top))
          ≡ true)
unfolding clamp_origin_to_work_area
clamped_parts x y width height area u v h = grind arith

-- A window that is clamped with the report that it fits is within the work area on all four sides,
-- wherever it stood.
pub clamp_origin-IsContained :
    (x y : ℤ) (width height : ℕ) (area : Area) (u v : ℤ)
    → clamp_origin_to_work_area x y width height area ≡ ok (u, v, true)
    → IsContained u v width height area
clamp_origin-IsContained x y width height area u v h =
    let (hu, hv, hf) = clamped_parts x y width height area u v h in
    let (fw, fh) =
      both_true (leb_ℤ (pos width) (area.right -ℤ area.left))
        (leb_ℤ (pos height) (area.bottom -ℤ area.top)) hf in
    let (l, r) = axis_contained x width area.left area.right fw in
    let (t, b) = axis_contained y height area.top area.bottom fh in
    record {
      left_in = ap (leb_ℤ area.left) (sym hu) ∙ l;
      right_in = ap (λ (p : ℤ). leb_ℤ (p +ℤ pos width) area.right) (sym hu) ∙ r;
      top_in = ap (leb_ℤ area.top) (sym hv) ∙ t;
      bottom_in = ap (λ (p : ℤ). leb_ℤ (p +ℤ pos height) area.bottom) (sym hv) ∙ b;
    }
