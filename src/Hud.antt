-- ===== src/Hud.antt =====
-- What the display shows: the metrics that are selected (src/limit_halo/model.py,
-- `select_visible_hud_metrics`) and the layout that they are drawn in (src/limit_halo/ui.py).
pub mod Select
pub mod Layout
pub mod View
pub mod Lanes
pub mod Redraw
pub mod Place
pub mod Status
