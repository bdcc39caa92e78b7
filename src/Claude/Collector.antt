-- ===== src/Claude/Collector.antt =====
-- src/limit_halo/claude_protocol.py, `ClaudeCollector`: the worker that asks the broker. Times of
-- the monotonic clock and of the wall clock are arguments, in microseconds. What other threads do
-- meanwhile is a list of events at two places of an iteration: after the test of the loop and during
-- the acquisition.
pub mod Alive
pub mod Schedule
use limit_halo.Prelude.{
  ℕ, suc, ◌+◌, ◌*◌, String, Bool, true, false, ◌&&◌, not, Option, none, some, List, [], ◌∷◌, str_eq,
  if◌then◌else◌, leb, ltb, min, ◌==◌,
}
use limit_halo.Prelude.Int.{pos}
use limit_halo.Prelude.Result.{Result, ok, err, broker_failure, os_error}
use limit_halo.Json.{int}
use limit_halo.Model.Metric.{ProviderState, refreshing, provider_error, second}
use limit_halo.Model.Store.{MetricStore, update_claude, mark_provider}
use limit_halo.Model.Coalescer.{Coalescer, new_coalescer, request, complete}
use limit_halo.Claude.Broker.{BrokerResult}

abbrev pub claude_poll_seconds : ℕ
claude_poll_seconds = 300

-- `CLAUDE_FAILURE_BACKOFF_SECONDS`, read at an index.
unfoldable pub backoff_seconds : ℕ → ℕ
backoff_seconds n = if n == 0 then 15 else if n == 1 then 60 else 300

pub record Collector : Type 0 where
  pub stop : Bool
  pub manual_event : Bool
  pub manual : Coalescer
  pub failure_index : ℕ
  pub next_automatic : ℕ
  pub store : MetricStore

-- `start`, when no worker is alive, up to the loop of `_run`.
unfoldable pub start : Collector → ℕ → ℕ → Collector
start c now wall = record c {
  stop = false;
  failure_index = 0;
  next_automatic = now;
  store = (mark_provider c.store "claude" refreshing wall none).1;
}

set_if : Result Bool → Bool → Bool
set_if (ok true) event = true
set_if _ event = event

-- The argument is the fixed "claude", so that `request` does not raise.
unfoldable pub request_refresh : Collector → Collector
unfolding set_if
request_refresh c = record c {
  manual_event = set_if (request c.manual "claude").0 c.manual_event;
  manual = (request c.manual "claude").1;
}

unfoldable pub request_stop : Collector → Collector
request_stop c = record c { stop = true; manual_event = true }

pub data Event : Type 0 where
  asked : Event
  stopped : Event

unfoldable pub happen : Collector → Event → Collector
unfolding request_refresh request_stop
happen c asked = request_refresh c
happen c stopped = request_stop c

unfoldable pub happen_all : List Event → Collector → Collector
unfolding happen
happen_all [] c = c
happen_all (e ∷ es) c = happen_all es (happen c e)

done : Result Bool → Result (Unit {0})
done (err e) = err e
done (ok _) = ok tt

-- `_finish_manual`
unfoldable pub finish_manual : Collector → Result (Unit {0}) × Collector
unfolding done set_if
finish_manual c = (
  done (complete c.manual "claude").0,
  record c {
    manual_event = set_if (complete c.manual "claude").0 c.manual_event;
    manual = (complete c.manual "claude").1;
  },
)

-- A failed attempt: a manual one leaves the schedule alone.
unfoldable pub back_off : Bool → ℕ → Collector → Collector
back_off manual later c = if manual then c else record c {
  failure_index = min (c.failure_index + 1) 2;
  next_automatic = later + backoff_seconds (min c.failure_index 2) * second;
}

unfoldable pub note_failure : Bool → ℕ → ℕ → ProviderState → Option String → Collector → Collector
unfolding back_off
note_failure manual later wall state code c =
    back_off manual later (record c { store = (mark_provider c.store "claude" state wall code).1 })

unfoldable pub note_update :
    Bool → ℕ → ℕ → Result Bool × MetricStore → Collector → Result (Unit {0}) × Collector
note_update manual later wall (err e, s) c = (err e, record c { store = s })
note_update manual later wall (ok accepted, s) c = (
  ok tt,
  record c {
    store =
        if accepted
        then s
        else (mark_provider s "claude" provider_error wall (some "stale_snapshot")).1;
    failure_index = 0;
    next_automatic = if manual then c.next_automatic else later + claude_poll_seconds * second;
  },
)

-- The body of the `try` after the acquisition, and the `except` clause.
unfoldable pub handle :
    Bool → ℕ → ℕ → Result BrokerResult → Collector → Result (Unit {0}) × Collector
unfolding note_update note_failure
handle manual later wall (ok r) c =
    if str_eq r.status "OK"
    then note_update manual later wall (update_claude c.store r.metrics (int (pos r.sequence))) c
    else (ok tt, note_failure manual later wall r.provider_state r.redacted_error_code c)
handle manual later wall (err (broker_failure _)) c =
    (ok tt, note_failure manual later wall provider_error (some "broker_failure") c)
handle manual later wall (err (os_error _)) c =
    (ok tt, note_failure manual later wall provider_error (some "broker_failure") c)
handle manual later wall (err e) c = (err e, c)

-- An exception in the `finally` clause replaces the one that is under way.
abbrev replace_error : Result (Unit {0}) → Result (Unit {0}) → Result (Unit {0})
replace_error (err e) first = err e
replace_error (ok _) first = first

unfoldable pub finally_finish : Bool → Result (Unit {0}) × Collector → Result (Unit {0}) × Collector
unfolding finish_manual
finally_finish false (r, c) = (r, c)
finally_finish true (r, c) = (replace_error (finish_manual c).0 r, (finish_manual c).1)

-- What one iteration reads and meets.
pub record Round : Type 0 where
  pub now : ℕ
  pub later : ℕ
  pub wall : ℕ
  pub entering : List Event
  pub during : List Event
  pub answer : Result BrokerResult

-- The manual path clears the event and marks the provider.
unfoldable pub begin_attempt : Bool → ℕ → Collector → Collector
begin_attempt manual wall c =
    if manual
    then record c {
      manual_event = false;
      store = (mark_provider c.store "claude" refreshing wall none).1;
    }
    else c

unfoldable pub attempt : Bool → Round → Collector → Result (Unit {0}) × Collector
unfolding begin_attempt happen_all finally_finish handle
attempt manual x c =
    finally_finish manual
      (handle manual x.later x.wall x.answer (happen_all x.during (begin_attempt manual x.wall c)))

-- The body of the loop.
unfoldable pub body : Round → Collector → Result (Unit {0}) × Collector
unfolding attempt
body x c =
    if not c.manual_event && ltb x.now c.next_automatic
    then (ok tt, c)
    else attempt c.manual_event x c

unfoldable pub iteration : Round → Collector → Result (Unit {0}) × Collector
unfolding body happen_all
iteration x c = if c.stop then (ok tt, c) else body x (happen_all x.entering c)

abbrev pub next_run :
    Result (Unit {0}) × Collector
    → (Collector → Result (Unit {0}) × Collector)
    → Result (Unit {0}) × Collector
next_run (err e, c) next = (err e, c)
next_run (ok _, c) next = next c

-- `_run`: an exception ends the worker.
unfoldable pub run_rounds : List Round → Collector → Result (Unit {0}) × Collector
unfolding iteration
run_rounds [] c = (ok tt, c)
run_rounds (x ∷ xs) c = next_run (iteration x c) (run_rounds xs)
