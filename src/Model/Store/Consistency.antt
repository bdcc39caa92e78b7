-- ===== src/Model/Store/Consistency.antt =====
-- What holds of a `MetricStore` between two calls, and that every call keeps it.
pub mod Codex
pub mod Claude
pub mod Calls
