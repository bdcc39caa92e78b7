-- ===== src/Codex/Collector.antt =====
-- src/limit_halo/codex_protocol.py, `CodexCollector`: the worker that keeps a session with the app
-- server and reads the limits on a schedule, on a notification and on request. What the session
-- gives is an argument of each step.
pub mod Manual
use limit_halo.Prelude.{
  ℕ, suc, ◌+◌, min, Bool, true, false, ◌||◌, none, some, List, [], ◌∷◌, ◌==◌, if◌then◌else◌,
}
use limit_halo.Prelude.Int.{pos}
use limit_halo.Prelude.Result.{
  Error, Result, ok, err, protocol_failure, os_error, discovery_failure,
}
use limit_halo.Json.{int}
use limit_halo.Model.Metric.{Metric, ProviderState, refreshing, provider_error}
use limit_halo.Model.Store.{MetricStore, update_codex, mark_provider}
use limit_halo.Model.Coalescer.{Coalescer, new_coalescer, request, complete}

pub record CodexCollector : Type 0 where
  pub stop : Bool
  pub manual_event : Bool
  pub wake_event : Bool
  pub manual : Coalescer
  pub acquisition_sequence : ℕ
  pub backoff_index : ℕ
  pub store : MetricStore

-- `start`, when no worker is alive.
unfoldable pub start_codex : CodexCollector → CodexCollector
start_codex c = record c {
  stop = false;
  manual_event = false;
  wake_event = false;
  manual = new_coalescer;
  backoff_index = 0;
}

-- Both events are set when the coalescer says so.
signal : Result Bool → CodexCollector → CodexCollector
signal (ok true) c = record c { manual_event = true; wake_event = true }
signal _ c = c

unfoldable pub request_codex : CodexCollector → CodexCollector
unfolding signal
request_codex c =
    signal (request c.manual "codex").0 (record c { manual = (request c.manual "codex").1 })

unfoldable pub stop_codex : CodexCollector → CodexCollector
stop_codex c = record c { stop = true; wake_event = true }

abbrev pub Step : Type 0
Step = Result (Unit {0}) × CodexCollector

finished : Result Bool → Result (Unit {0})
finished (err e) = err e
finished (ok _) = ok tt

-- `_finish_manual`
unfoldable pub finish_codex : CodexCollector → Step
unfolding finished signal
finish_codex c = (
  finished (complete c.manual "codex").0,
  signal (complete c.manual "codex").0 (record c { manual = (complete c.manual "codex").1 }),
)

accepted_or : Result Bool × MetricStore → CodexCollector → Step
accepted_or (err e, s) c = (err e, record c { store = s })
accepted_or (ok true, s) c = (ok tt, record c { store = s })
accepted_or (ok false, s) c =
    (err (protocol_failure "non-monotonic Codex snapshot"), record c { store = s })

-- `_accept_snapshot`: the sequence counts the snapshots.
unfoldable pub accept_snapshot : List Metric → CodexCollector → Step
unfolding accepted_or
accept_snapshot metrics c =
    accepted_or (update_codex c.store metrics (int (pos (suc c.acquisition_sequence))))
      (record c { acquisition_sequence = suc c.acquisition_sequence })

accept_reading : Result (List Metric) → CodexCollector → Step
unfolding accept_snapshot
accept_reading (err e) c = (err e, c)
accept_reading (ok metrics) c = accept_snapshot metrics c

-- A `finally` clause that completes the manual refresh.
unfoldable pub complete_after : Bool → Step → Step
unfolding finish_codex
complete_after false step = step
complete_after true (r, c) = elim (finish_codex c).0 [
  | err e ↦ (err e, (finish_codex c).1)
  | ok _ ↦ (r, (finish_codex c).1)
]

-- What other threads do while the worker waits or reads.
pub data CodexEvent : Type 0 where
  asked : CodexEvent
  stopped : CodexEvent

unfoldable pub happen_codex : List CodexEvent → CodexCollector → CodexCollector
unfolding request_codex stop_codex
happen_codex [] c = c
happen_codex (asked ∷ es) c = happen_codex es (request_codex c)
happen_codex (stopped ∷ es) c = happen_codex es (stop_codex c)

-- What one pass of the inner loop meets: the update of `wait_for_update`, whether the poll is due,
-- the result of `read`, and what happens meanwhile.
pub record Poll : Type 0 where
  pub wall : ℕ
  pub update : Result Bool
  pub due : Bool
  pub reading : Result (List Metric)
  pub during : List CodexEvent

abbrev clear_events : CodexCollector → CodexCollector
clear_events c = record c { manual_event = false; wake_event = false }

waited : Result Bool → Poll → CodexCollector → Step
unfolding accept_reading happen_codex
waited (err e) x c = (err e, happen_codex x.during c)
waited (ok update) x c =
    if update || x.due
    then accept_reading x.reading (happen_codex x.during c)
    else (ok tt, happen_codex x.during c)

-- A pass of the inner loop.
unfoldable pub poll_once : Poll → CodexCollector → Step
unfolding complete_after waited accept_reading happen_codex
poll_once x c =
    if c.manual_event
    then complete_after true (
        accept_reading x.reading (
          happen_codex x.during (record (clear_events c) {
            store = (mark_provider c.store "codex" refreshing x.wall none).1;
          })))
    else waited x.update x c

next_poll : Step → (CodexCollector → Step) → Step
next_poll (err e, c) next = (err e, c)
next_poll (ok _, c) next = next c

-- The inner loop, until a stop or an exception.
unfoldable pub poll_all : List Poll → CodexCollector → Step
unfolding poll_once next_poll
poll_all [] c = (ok tt, c)
poll_all (x ∷ xs) c = if c.stop then (ok tt, c) else next_poll (poll_once x c) (poll_all xs)

-- The `except` clauses.
unfoldable pub note_error : ℕ → Step → Step
note_error wall (ok _, c) = (ok tt, c)
note_error wall (err (Error.authorization_required _), c) = (
  ok tt,
  record c {
    store =
        (mark_provider c.store "codex" ProviderState.authorization_required wall
          (some "authorization_required")).1;
  },
)
note_error wall (err (os_error _), c) = (
  ok tt,
  record c {
    store = (mark_provider c.store "codex" provider_error wall (some "codex_unavailable")).1;
  },
)
note_error wall (err (discovery_failure _), c) = (
  ok tt,
  record c {
    store = (mark_provider c.store "codex" provider_error wall (some "codex_unavailable")).1;
  },
)
note_error wall (err (protocol_failure _), c) = (
  ok tt,
  record c {
    store = (mark_provider c.store "codex" provider_error wall (some "codex_unavailable")).1;
  },
)
note_error wall (err e, c) = (err e, c)

-- After the first snapshot: a manual attempt is completed, and the inner loop runs.
keep_session : ℕ → Bool → List Poll → CodexCollector → Step
unfolding note_error next_poll complete_after poll_all
keep_session wall manual polls c = note_error wall (
    next_poll (complete_after manual (ok tt, c))
      (λ d. poll_all polls (record d { backoff_index = 0 })))

opened : ℕ → Bool → List Poll → Step → Step
unfolding keep_session complete_after note_error
opened wall manual polls (err e, c) = complete_after manual (note_error wall (err e, c))
opened wall manual polls (ok _, c) = keep_session wall manual polls c

-- An iteration of `_run` up to the delay. `first` is the first snapshot, or the exception of the
-- discovery, the transport or the session.
unfoldable pub attempt_session : ℕ → Result (List Metric) → List Poll → CodexCollector → Step
unfolding opened accept_reading
attempt_session wall first polls c =
    opened wall c.manual_event polls
      (accept_reading first (if c.manual_event then clear_events c else c))

-- `CODEX_RESTART_BACKOFF_SECONDS`, read at an index.
unfoldable pub restart_seconds : ℕ → ℕ
restart_seconds n = if n == 0 then 5 else if n == 1 then 15 else 60

-- The delay before the next session, and the index of the one after it.
unfoldable pub restart_delay : CodexCollector → ℕ × CodexCollector
unfolding restart_seconds
restart_delay c = (
  restart_seconds (min c.backoff_index 2),
  record c { backoff_index = min (c.backoff_index + 1) 2 },
)
