-- ===== src/Claude/Runtime.antt =====
-- src/limit_halo/claude_protocol.py, `ClaudeRuntime`: the gate that keeps the broker from being
-- reached without consent. The state of a collector is that of `Claude.Collector`; the store that it
-- shares with the runtime is passed in and out. Whether its worker is alive is a field here.
pub mod Consent
use limit_halo.Prelude.{ℕ, Bool, true, false, ◌&&◌, not, Option, none, some, if◌then◌else◌, suc}
use limit_halo.Prelude.Result.{Result, ok, err}
use limit_halo.Model.Store.{MetricStore, set_claude_disabled}
use limit_halo.Model.Coalescer.{new_coalescer}
use limit_halo.Claude.Collector.{Collector, start, request_refresh}
use limit_halo.Config.{AppConfig, claude_enabled, consent_completed}

pub record Runtime : Type 0 where
  pub store : MetricStore
  pub collector : Option Collector
  pub alive : Bool
  -- How many broker clients were made.
  pub clients : ℕ

abbrev pub new_collector : MetricStore → Collector
new_collector store = record {
  stop = false;
  manual_event = false;
  manual = new_coalescer;
  failure_index = 0;
  next_automatic = 0;
  store = store;
}

-- `collector.start()`: nothing is done while the worker is alive.
start_collector : Bool → ℕ → ℕ → Collector → Collector
start_collector true now wall c = c
start_collector false now wall c = start c now wall

started_with : ℕ → ℕ → Runtime → Collector → Runtime
unfolding start_collector
started_with now wall r c = record r {
  store = (start_collector r.alive now wall (record c { store = r.store })).store;
  collector = some (start_collector r.alive now wall (record c { store = r.store }));
  alive = true;
}

-- `_client_factory()`: a client, or the exception of `production_client`.
made_client : ℕ → ℕ → Runtime → Result (Unit {0}) → Result Bool × Runtime
unfolding started_with
made_client now wall r (err e) = (err e, r)
made_client now wall r (ok _) = (
  ok true,
  started_with now wall (record r { clients = suc r.clients; alive = false })
      (new_collector r.store),
)

start_allowed : ℕ → ℕ → Result (Unit {0}) → Runtime → Option Collector → Result Bool × Runtime
unfolding made_client started_with
start_allowed now wall factory r none = made_client now wall r factory
start_allowed now wall factory r (some c) = (ok true, started_with now wall r c)

-- `start_if_consented`, with the outcome that the factory of clients has if it is called.
unfoldable pub start_if_consented :
    AppConfig → Result (Unit {0}) → ℕ → ℕ → Runtime → Result Bool × Runtime
unfolding start_allowed
start_if_consented config factory now wall r =
    if not (consent_completed config && claude_enabled config)
    then (ok false, record r { store = set_claude_disabled r.store wall })
    else start_allowed now wall factory r r.collector

-- `disable`: the collector is forgotten, stopped and joined.
unfoldable pub disable : ℕ → Runtime → Runtime
disable wall r = record r {
  store = set_claude_disabled r.store wall;
  collector = none;
  alive = false;
}

unfoldable pub shutdown : Runtime → Runtime
shutdown r = record r { collector = none; alive = false }

refresh_collector : Option Collector → Option Collector
unfolding request_refresh
refresh_collector none = none
refresh_collector (some c) = some (request_refresh c)

unfoldable pub refresh : Runtime → Runtime
unfolding refresh_collector
refresh r = record r { collector = refresh_collector r.collector }
