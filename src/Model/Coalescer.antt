-- ===== src/Model/Coalescer.antt =====
-- src/limit_halo/model.py, `RefreshCoalescer`: at most one active and one pending manual refresh
-- of each provider. Both methods hold the lock, so each is one step.
pub mod Accounting
use limit_halo.Prelude.{String, Bool, true, false, Option, none, some, str_eq, if◌then◌else◌}
use limit_halo.Prelude.Result.{Result, ok, err, value_error, runtime_error}
use limit_halo.Model.Store.{Providers}

pub record Coalescer : Type 0 where
  pub active : Providers Bool
  pub pending : Providers Bool

abbrev pub new_coalescer : Coalescer
new_coalescer = record {
  active = record { codex = false; claude = false };
  pending = record { codex = false; claude = false };
}

-- A dictionary with the keys "codex" and "claude", read and written by key.
unfoldable pub at : String → Providers Bool → Option Bool
at provider p =
    if str_eq provider "codex"
    then some p.codex
    else if str_eq provider "claude"
    then some p.claude
    else none

unfoldable pub put : String → Bool → Providers Bool → Providers Bool
put provider b p =
    if str_eq provider "codex"
    then record p { codex = b }
    else if str_eq provider "claude"
    then record p { claude = b }
    else p

request_when : Option Bool → String → Coalescer → Result Bool × Coalescer
request_when none provider c = (err (value_error "invalid provider"), c)
request_when (some true) provider c = (ok false, record c { pending = put provider true c.pending })
request_when (some false) provider c = (ok true, record c { active = put provider true c.active })

unfoldable pub request : Coalescer → String → Result Bool × Coalescer
unfolding request_when at put
request c provider = request_when (at provider c.active) provider c

complete_when : Option Bool → Option Bool → String → Coalescer → Result Bool × Coalescer
complete_when none _ provider c = (err (value_error "invalid provider"), c)
complete_when (some false) _ provider c = (err (runtime_error "refresh is not active"), c)
complete_when (some true) (some true) provider c =
    (ok true, record c { pending = put provider false c.pending })
complete_when (some true) _ provider c =
    (ok false, record c { active = put provider false c.active })

unfoldable pub complete : Coalescer → String → Result Bool × Coalescer
unfolding complete_when at put
complete c provider = complete_when (at provider c.active) (at provider c.pending) provider c
