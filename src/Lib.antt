-- ===== src/Lib.antt =====
-- LimitHalo is a desktop widget that shows how much of the Codex and Claude quotas is used. Two worker
-- threads ask the providers, a store keeps their answers, the HUD draws a snapshot of the store, and
-- timers of the UI thread report low quotas and look for updates of the program. The sources are the
-- Python files of src/limit_halo.
--
-- Files and sources:
-- - Prelude: Boolean tests, lists, signed integers, decimal texts, and Result, which models exceptions:
--   a function that may raise returns ok or err. Dict: dictionaries in insertion order. Json: what
--   json.loads returns, doubles as sign, mantissa and binary scale.
-- - Model: model.py. Model.Metric is Metric, Model.Store is MetricStore (each method holds the lock and
--   is one step that returns its result and the new store), Model.Visibility is
--   resolve_provider_visibility, Model.Coalescer is RefreshCoalescer.
-- - Hud: the pure parts of ui.py. Hud.Layout is compute_layout and the mode table, Hud.Select the choice
--   of metrics, Hud.View what a redraw reads of the window, Hud.Place the placement of the window,
--   Hud.Status the color and the action of a provider.
-- - Claude: claude_protocol.py. Claude.Frame and Claude.Broker are parse_broker_line, Claude.Collector
--   is ClaudeCollector, Claude.Runtime is ClaudeRuntime.
-- - Codex: codex_protocol.py. Codex is account_is_usable and normalize_rate_limits, Codex.Frame is
--   _load_object, Codex.Session is CodexSession, Codex.Collector is CodexCollector.
-- - Config: the settings of config.py. Config.Decode reads local times and the older schemas,
--   Config.Schema is to_json_object, Config.Extension and Config.Overlay keep the fields of newer
--   versions, Config.Strict is the strict decoder, Config.File is ConfigStore;
--   Config.Merge is merge_settings_changes of ui.py.
-- - Alerts: NotificationDecider of notifications.py. Diagnostics: the buckets of diagnostics.py.
-- - Setup: configure.py, the answers of the setup dialog and persist_configuration.
-- - Discovery: codex_discovery.py. Discovery.Version is Version, Discovery.Windows the interface to
--   Windows and the checks of paths and files, Discovery.Sources the candidates of npm and of the Store,
--   Discovery.Select their order, Discovery.Search the mirror, the search and the check before a start.
-- - Shell: app.py, the visibility of the providers and the attempts to recover after a sign-in.
-- - SignIn: auth.py, the client that a person signs in with and the command that is started.
-- - Updates: updates.py (Updates.Tags the tags and their order, Updates.Releases the checks of addresses
--   and assets, Updates.Discover the newest release of a page) and UpdateController of
--   update_controller.py.
-- - Examples: runs at concrete states.
--
-- How the state is modelled. Observation times and clocks are natural numbers of microseconds, window
-- lengths are minutes, resets are signed seconds, the display scale is counted in quarters. Readings of
-- the clocks, the answers of the providers, the answers of the person to a dialog and what other threads
-- do are arguments of the steps: the Claude worker meets the requests and stops of other threads after
-- the test of its loop and during an acquisition; the Codex session reads a script of messages that ends
-- at the deadline. The JSON decoder, with the hook that rejects duplicate keys, is the parameter loads.
-- Loops are recursion on those lists, so there is no fuel, except for the digits of a number: twenty are
-- enough for 64 bits; and for the attempts to recover after a sign-in, for which 48 are proved to be
-- enough.
--
-- Files and Windows. What the file system answers to the calls of an operation of the settings file is
-- an argument of that operation, one answer for each call, in their order: a file may be changed by
-- others between any two calls. The search for Codex asks an interface, Windows, that stands for the
-- machine at one time; the check before a start may ask another one. Python's Unicode tables, json,
-- urlsplit and quote are parameters; what the theorems need of them are the hypotheses IsUnicode and
-- IsCodec.
--
-- Not modelled: Tk and native Windows calls, processes, the network, the texts that are shown, the native
-- broker, the packaging tools; the rest of app.py, the environment of a sign-in's process, and the
-- staging of releases.
pub mod Prelude
pub mod Dict
pub mod Json
pub mod Model
pub mod Hud
pub mod Claude
pub mod Config
pub mod Alerts
pub mod Updates
pub mod Codex
pub mod Diagnostics
pub mod Discovery
pub mod Setup
pub mod Shell
pub mod SignIn
pub mod Examples
