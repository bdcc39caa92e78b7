-- ===== src/Discovery.antt =====
-- src/limit_halo/codex_discovery.py: the search of a trusted Codex executable. The file system, the
-- signatures and the versions of files are what Windows answers.
pub mod Version
pub mod Windows
pub mod Select
pub mod Sources
pub mod Search
