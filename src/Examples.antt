-- ===== src/Examples.antt =====
-- The theorems at concrete inputs, and runs of the definitions.
mod Store
mod Display
pub mod Broker
pub mod Alerts
pub mod Codex
pub mod Updates
pub mod Workers
pub mod Settings
pub mod Releases
pub mod Search
