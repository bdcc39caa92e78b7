-- ===== src/Model.antt =====
-- src/limit_halo/model.py: metrics, the store that keeps them, and what the display selects.
pub mod Metric
pub mod Store
pub mod Visibility
pub mod Coalescer
