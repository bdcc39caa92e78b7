-- ===== src/Updates.antt =====
-- src/limit_halo/updates.py and update_controller.py: the update of the program.
pub mod Controller
pub mod Tags
pub mod Releases
pub mod Discover
use limit_halo.Prelude.{ℕ, String, List}

pub record Asset : Type 0 where
  pub name : String
  pub size : ℕ
  pub sha256 : String
  pub url : String

pub record Release : Type 0 where
  pub version : String
  pub tag : String
  pub assets : List Asset
  pub page_url : String

pub record StagedUpdate : Type 0 where
  pub directory : String
  pub acceptance : String
  pub release : Release
  pub update_root : String
