-- ===== src/Claude/Runtime/Consent.antt =====
-- Without consent the broker is not reached.
use limit_halo.Prelude.{ℕ, ◌≤◌, suc, ◌+◌, Bool, ◌&&◌, List, [], ◌∷◌, arith, if◌then◌else◌}
use limit_halo.Prelude.Result.{Result}
use limit_halo.Config.{AppConfig, claude_enabled, consent_completed}
use limit_halo.Claude.Runtime.{Runtime, start_if_consented, disable, shutdown, refresh}

pub data Use : Type 0 where
  starts : AppConfig → Result (Unit {0}) → ℕ → ℕ → Use
  disables : ℕ → Use
  shuts_down : Use
  refreshes : Use

abbrev pub consents : AppConfig → Bool
consents config = consent_completed config && claude_enabled config

unfoldable pub use_runtime : Use → Runtime → Runtime
use_runtime (starts config factory now wall) r = (start_if_consented config factory now wall r).1
use_runtime (disables wall) r = disable wall r
use_runtime shuts_down r = shutdown r
use_runtime refreshes r = refresh r

unfoldable pub use_all : List Use → Runtime → Runtime
unfolding use_runtime
use_all [] r = r
use_all (u ∷ us) r = use_all us (use_runtime u r)

-- How many of the starts found a consent.
unfoldable pub consented_starts : List Use → ℕ
consented_starts [] = 0
consented_starts (starts config factory now wall ∷ us) =
    let rest = consented_starts us in if consents config then suc rest else rest
consented_starts (_ ∷ us) = consented_starts us

one_client :
    (config : AppConfig) (factory : Result (Unit {0})) (now wall : ℕ) (r : Runtime)
    → (start_if_consented config factory now wall r).1.clients
      ≤ (if consents config then suc r.clients else r.clients)
unfolding start_if_consented
one_client config factory now wall r = ground arith

-- In a run of the runtime there are at most as many broker clients made as there are starts at which
-- the settings had the stored consent and Claude was not disabled; so there is none without consent.
pub clients_consented :
    (us : List Use) (r : Runtime) → (use_all us r).clients ≤ r.clients + consented_starts us
unfolding use_all consented_starts disable shutdown refresh
clients_consented [] r = omega arith
clients_consented (starts config factory now wall ∷ us) r = ground (
  arith,
  one_client config factory now wall r,
  clients_consented us (start_if_consented config factory now wall r).1,
)
clients_consented (disables wall ∷ us) r = clients_consented us (disable wall r)
clients_consented (shuts_down ∷ us) r = clients_consented us (shutdown r)
clients_consented (refreshes ∷ us) r = clients_consented us (refresh r)
